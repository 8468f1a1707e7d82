-- ===== src/Perception/Hysteresis.antt =====
-- What `MovementAnalyzer` of libs/sentinel/perception/movement.py remembers of the tracks.
use sentinal_ai_control_room.Prelude.{
  ℕ, ◌≡◌, refl, ◌∙◌, Bool, true, false, not, ◌&&◌, Option, none, List, [], ◌∷◌, if◌then◌else◌, ◌==◌,
  nat_eq, inl, inr, Bool-cases, arith,
}
use sentinal_ai_control_room.Prelude.Dict
use sentinal_ai_control_room.Prelude.Dict.{Dict, keys, listed, get-set}
use sentinal_ai_control_room.Prelude.Distinct.{AllDistinct, AllDistinct-pop, get-pop, get_unlisted}
use sentinal_ai_control_room.Perception.Movement.{MovementAnalyzer, evict_keys, evict}

pub record IsAnalyzing (a : MovementAnalyzer) : Type 0 where
  pub moving_once : AllDistinct (keys a.is_moving)
  pub stopped_once : AllDistinct (keys a.stopped_s)
  pub classified_first : (k : ℕ) → Dict.get a.is_moving k ≡ none → Dict.get a.stopped_s k ≡ none

-- What an analyzer has of an id.
abbrev pub known : MovementAnalyzer → ℕ → Option Bool × Option ℕ
known a k = (Dict.get a.is_moving k, Dict.get a.stopped_s k)

pub record IsDistinct (a : MovementAnalyzer) : Type 0 where
  pub moving : AllDistinct (keys a.is_moving)
  pub stopped : AllDistinct (keys a.stopped_s)

-- Of the keys in a list, those that are not present are gone, and nothing else.
pub record IsEvicted (present ks : List ℕ) (a a' : MovementAnalyzer) : Type 0 where
  pub distinct : IsDistinct a'
  pub stop : a'.stop_threshold ≡ a.stop_threshold
  pub resume : a'.resume_threshold ≡ a.resume_threshold
  pub kept :
      (j : ℕ)
      → known a' j ≡ (if listed ks j && not (listed present j) then (none, none) else known a j)

abbrev drop_key : ℕ → MovementAnalyzer → MovementAnalyzer
drop_key k a = record a { is_moving = Dict.pop a.is_moving k; stopped_s = Dict.pop a.stopped_s k }

evict_key-IsEvicted :
    (present : List ℕ) (k : ℕ) (a : MovementAnalyzer)
    → IsDistinct a
    → IsEvicted present (k ∷ []) a (if listed present k then a else drop_key k a)
evict_key-IsEvicted present k a i = elim (Bool-cases (listed present k)) [
  | inl here ↦ rw here (record {
    distinct = i;
    stop = refl;
    resume = refl;
    kept = λ j. elim (Bool-cases (k == j)) [
      | inl m ↦
          (let same : k ≡ j = (nat_eq.test_iff k j).0 m in
            let here' : listed present j ≡ true = rw (← same) here in rw (m, here') refl)
      | inr m ↦ rw m refl
    ];
  })
  | inr gone ↦ rw gone (record {
    distinct = record {
      moving = AllDistinct-pop a.is_moving k i.moving;
      stopped = AllDistinct-pop a.stopped_s k i.stopped;
    };
    stop = refl;
    resume = refl;
    kept = λ j.
        rw (get-pop a.is_moving k j i.moving, get-pop a.stopped_s k j i.stopped)
          (elim (Bool-cases (k == j)) [
            | inl m ↦
                (let same : k ≡ j = (nat_eq.test_iff k j).0 m in
                  let gone' : listed present j ≡ false = rw (← same) gone in rw (m, gone') refl)
            | inr m ↦ rw m refl
          ]);
  })
]

evict_keys-IsEvicted :
    (present ks : List ℕ) (a : MovementAnalyzer)
    → IsDistinct a
    → IsEvicted present ks a (evict_keys present ks a)
unfolding evict_keys
evict_keys-IsEvicted present [] a i = record {
  distinct = i;
  stop = refl;
  resume = refl;
  kept = λ j. refl;
}
evict_keys-IsEvicted present (k ∷ ks) a i =
    let next = if listed present k then a else drop_key k a in
    let first = evict_key-IsEvicted present k a i in
    let rest = evict_keys-IsEvicted present ks next first.distinct in
    record {
      distinct = rest.distinct;
      stop = rest.stop ∙ first.stop;
      resume = rest.resume ∙ first.resume;
      kept = λ j. ground (arith, rest.kept j, first.kept j);
    }

-- What is left of an id after the eviction.
pub evict-known :
    (present : List ℕ) (a : MovementAnalyzer)
    → IsAnalyzing a
    → IsEvicted present (keys a.is_moving) a (evict present a)
      × ((j : ℕ)
          → known (evict present a) j ≡ (if listed present j then known a j else (none, none)))
unfolding evict
evict-known present a i =
    let e =
      evict_keys-IsEvicted present (keys a.is_moving) a
        (record { moving = i.moving_once; stopped = i.stopped_once }) in
    (
      e,
      λ j. e.kept j ∙ (elim (Bool-cases (listed (keys a.is_moving) j)) [
        | inl l ↦ rw l (ground arith)
        | inr l ↦
            (let none_moving = get_unlisted a.is_moving j l in
              let none_stopped = i.classified_first j none_moving in
              rw (l, none_moving, none_stopped) (ground arith))
      ]),
    )
