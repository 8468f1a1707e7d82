-- ===== src/Memory/Window.antt =====
-- What the repository of libs/sentinel/memory/repository.py keeps, and how often the agent publishes.
use sentinal_ai_control_room.Prelude.{
  ℕ, zero, suc, ◌-◌, ◌≤◌, ◌<◌, ◌≡◌, refl, sym, ◌∙◌, ap, true, false, none, List, [], ◌∷◌, ◌++◌,
  String, string_eq, ltb, if◌then◌else◌, ◌==◌, length, drop, length-append, length-drop, append-nil,
  append-append, inl, inr, Bool-cases, arith,
}
use sentinal_ai_control_room.Prelude.Dict
use sentinal_ai_control_room.Prelude.Dict.{get-set}
use sentinal_ai_control_room.Prelude.Results.{ok}
use sentinal_ai_control_room.Contracts.Values.{IntersectionState}
use sentinal_ai_control_room.Memory.Repository
use sentinal_ai_control_room.Memory.Repository.{
  InMemoryStateHistoryRepository, tail, push, window_of, append, recent, from_end, count,
}

module _ {ℓ} {A : Type ℓ} where
  -- The last `w` items of a list, all of a shorter one.
  abbrev pub last : ℕ → List A → List A
  last w xs = drop (length xs - w) xs

  drop-append : (n : ℕ) (xs ys : List A) → n ≤ length xs → drop n (xs ++ ys) ≡ drop n xs ++ ys
  drop-append zero xs ys h = refl
  drop-append (suc n) [] ys h = ground (arith, h)
  drop-append (suc n) (x ∷ xs) ys h = drop-append n xs ys (omega (arith, h))

  tail-drop : (n : ℕ) (xs : List A) → tail (drop n xs) ≡ drop (suc n) xs
  tail-drop zero [] = refl
  tail-drop zero (x ∷ xs) = refl
  tail-drop (suc n) [] = refl
  tail-drop (suc n) (x ∷ xs) = tail-drop n xs

  push_short :
      (w : ℕ) (xs : List A) (x : A) → length xs < w → push w (last w xs) x ≡ last w (xs ++ x ∷ [])
  unfolding push
  push_short w xs x h =
      let a : length xs - w ≡ 0 = omega (arith, h) in
      let b : length (xs ++ x ∷ []) - w ≡ 0 = omega (arith, h, length-append xs (x ∷ [])) in
      let c : ltb w (length (xs ++ x ∷ [])) ≡ false =
        ground (arith, h, length-append xs (x ∷ [])) in
      rw (a, b, c)

  push_full :
      (w : ℕ) (xs : List A) (x : A) → w ≤ length xs → push w (last w xs) x ≡ last w (xs ++ x ∷ [])
  unfolding push
  push_full w xs x h =
      let n = length xs - w in
      let a : length (xs ++ x ∷ []) - w ≡ suc n = omega (arith, h, length-append xs (x ∷ [])) in
      let b : drop n xs ++ x ∷ [] ≡ drop n (xs ++ x ∷ []) =
        sym (drop-append n xs (x ∷ []) (omega arith)) in
      let c : ltb w (length (drop n (xs ++ x ∷ []))) ≡ true =
        ground (arith, h, length-append xs (x ∷ []), length-drop n (xs ++ x ∷ [])) in
      rw (a, b, c) (tail-drop n (xs ++ x ∷ []))

  push-last : (w : ℕ) (xs : List A) (x : A) → push w (last w xs) x ≡ last w (xs ++ x ∷ [])
  push-last w xs x = elim (Bool-cases (ltb (length xs) w)) [
    | inl h ↦ push_short w xs x (ground (arith, h))
    | inr h ↦ push_full w xs x (ground (arith, h))
  ]

  last_nil : (w : ℕ) → last w [] ≡ []
  last_nil w = let z : 0 - w ≡ 0 = omega arith in rw z

  abbrev push_all : ℕ → List A → List A → List A
  push_all w window [] = window
  push_all w window (x ∷ xs) = push_all w (push w window x) xs

  push_all-last : (w : ℕ) (ys xs : List A) → push_all w (last w ys) xs ≡ last w (ys ++ xs)
  push_all-last w ys [] = rw (append-nil ys)
  push_all-last w ys (x ∷ xs) =
      ap (λ v. push_all w v xs) (push-last w ys x)
      ∙ push_all-last w (ys ++ x ∷ []) xs
      ∙ ap (last w) (sym (append-append ys (x ∷ []) xs))

-- The snapshots of one intersection.
abbrev pub of_id : String → List IntersectionState → List IntersectionState
of_id id [] = []
of_id id (x ∷ xs) = if x.intersection_id == id then x ∷ of_id id xs else of_id id xs

unfoldable pub append_all :
    InMemoryStateHistoryRepository → List IntersectionState → InMemoryStateHistoryRepository
append_all r [] = r
append_all r (x ∷ xs) = append_all (append r x) xs

pub window_of-append :
    (r : InMemoryStateHistoryRepository) (x : IntersectionState) (id : String)
    → window_of (append r x) id
      ≡ (if x.intersection_id == id then push r.window_size (window_of r id) x else window_of r id)
unfolding append
window_of-append r x id =
    let pushed = push r.window_size (window_of r x.intersection_id) x in
    ground (
      arith,
      get-set r.history x.intersection_id id pushed,
      string_eq.test_iff x.intersection_id id,
    )

window_of-append_all :
    (r : InMemoryStateHistoryRepository) (xs : List IntersectionState) (id : String)
    → window_of (append_all r xs) id ≡ push_all r.window_size (window_of r id) (of_id id xs)
unfolding append_all append
window_of-append_all r [] id = refl
window_of-append_all r (x ∷ xs) id =
    let ih = window_of-append_all (append r x) xs id in
    elim (Bool-cases (x.intersection_id == id)) [
      | inl h ↦ rw (ih, window_of-append r x id, h)
      | inr h ↦ rw (ih, window_of-append r x id, h)
    ]

-- A new repository that snapshots of any intersections are appended to keeps for each intersection
-- its own latest ones, oldest first, `window_size` of them, or all while there are fewer.
pub recent-append_all :
    (w : ℕ) (r : InMemoryStateHistoryRepository) (xs : List IntersectionState) (id : String)
    → Repository.init w ≡ ok r
    → recent (append_all r xs) id none ≡ last w (of_id id xs)
unfolding recent Repository.init Dict.get
recent-append_all w r xs id h =
    let n : r.window_size ≡ w = ground (arith, h) in
    let d : r.history ≡ [] = ground (arith, h) in
    let start : window_of r id ≡ last w [] = rw (d, last_nil w) in
    rw (window_of-append_all r xs id, n, start) (push_all-last w [] (of_id id xs))
