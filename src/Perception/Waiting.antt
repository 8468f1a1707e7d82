-- ===== src/Perception/Waiting.antt =====
-- A frame of `MovementAnalyzer` of libs/sentinel/perception/movement.py.
use mathlib.Core.Path.{subst}
use sentinal_ai_control_room.Prelude.{
  ℕ, ◌≡◌, refl, ap, ◌∙◌, Bool, true, false, Option, none, some, List, [], ◌∷◌, All, if◌then◌else◌,
  ◌==◌, nat_eq, inl, inr, Bool-cases, arith,
}
use sentinal_ai_control_room.Prelude.Dict
use sentinal_ai_control_room.Prelude.Dict.{Dict, keys, listed, get-set}
use sentinal_ai_control_room.Prelude.Distinct.{AllDistinct, AllDistinct-set}
use sentinal_ai_control_room.Perception.Geometry.{Track}
use sentinal_ai_control_room.Perception.Movement.{
  MovementInfo, MovementAnalyzer, evict, info_of, observe, observe_all, ids, update,
}
use sentinal_ai_control_room.Perception.Hysteresis.{IsAnalyzing, IsDistinct, known, evict-known}

-- What a frame has said of a track is remembered, and handed on.
abbrev pub IsSeen : MovementInfo → ℕ → MovementAnalyzer → Dict ℕ MovementInfo → Type 0
IsSeen info id a infos =
    (known a id ≡ (some info.is_moving, some info.stopped_s)) × (Dict.get infos id ≡ some info)

record IsObserved (a : MovementAnalyzer) (tracks : List Track) (dt : ℕ)
    (infos : Dict ℕ MovementInfo) (a' : MovementAnalyzer) (infos' : Dict ℕ MovementInfo)
    : Type 0 where
  distinct : IsDistinct a'
  stop : a'.stop_threshold ≡ a.stop_threshold
  resume : a'.resume_threshold ≡ a.resume_threshold
  others :
      (k : ℕ)
      → listed (ids tracks) k ≡ false
      → (known a' k ≡ known a k) × (Dict.get infos' k ≡ Dict.get infos k)
  seen : All (λ (t : Track). IsSeen (info_of a t dt) t.track_id a' infos') tracks

info_of-known :
    (a b : MovementAnalyzer) (t : Track) (dt : ℕ)
    → b.stop_threshold ≡ a.stop_threshold
    → b.resume_threshold ≡ a.resume_threshold
    → known b t.track_id ≡ known a t.track_id
    → info_of b t dt ≡ info_of a t dt
info_of-known a b t dt s r k =
    let m = ap (λ (p : Option Bool × Option ℕ). p.0) k in
    let n = ap (λ (p : Option Bool × Option ℕ). p.1) k in rw (m, n, s, r) refl

known-observe :
    (a : MovementAnalyzer) (t : Track) (dt k : ℕ)
    → known (observe a t dt) k ≡ (
        if t.track_id == k
        then (some (info_of a t dt).is_moving, some (info_of a t dt).stopped_s)
        else known a k)
unfolding observe
known-observe a t dt k =
    rw
      (
        get-set a.is_moving t.track_id k (info_of a t dt).is_moving,
        get-set a.stopped_s t.track_id k (info_of a t dt).stopped_s,
      )
      (elim (Bool-cases (t.track_id == k)) [ inl e ↦ rw e refl | inr e ↦ rw e refl ])

-- The tracks after the first are seen as if it had not been there.
seen_apart :
    (a : MovementAnalyzer) (t : Track) (dt : ℕ) (tracks : List Track) (a' : MovementAnalyzer)
    (infos' : Dict ℕ MovementInfo)
    → listed (ids tracks) t.track_id ≡ false
    → All (λ (u : Track). IsSeen (info_of (observe a t dt) u dt) u.track_id a' infos') tracks
    → All (λ (u : Track). IsSeen (info_of a u dt) u.track_id a' infos') tracks
unfolding observe
seen_apart a t dt [] a' infos' h s = tt
seen_apart a t dt (u ∷ rest) a' infos' h s =
    let apart : (t.track_id == u.track_id) ≡ false =
      ground
        (arith, nat_eq.test_iff t.track_id u.track_id, nat_eq.test_iff u.track_id t.track_id) in
    let same : known (observe a t dt) u.track_id ≡ known a u.track_id =
      known-observe a t dt u.track_id ∙ (rw apart refl) in
    let info = info_of-known a (observe a t dt) u dt refl refl same in
    (
      subst (λ i. IsSeen i u.track_id a' infos') info s.0,
      seen_apart a t dt rest a' infos' (ground (arith, h)) s.1,
    )

observe_all-IsObserved :
    (a : MovementAnalyzer) (tracks : List Track) (dt : ℕ) (infos : Dict ℕ MovementInfo)
    → IsDistinct a
    → AllDistinct (ids tracks)
    → IsObserved a tracks dt infos
        (observe_all a tracks dt infos).0
        (observe_all a tracks dt infos).1
unfolding observe_all observe
observe_all-IsObserved a [] dt infos i o = record {
  distinct = i;
  stop = refl;
  resume = refl;
  others = λ k h. (refl, refl);
  seen = tt;
}
observe_all-IsObserved a (t ∷ rest) dt infos i o =
    let b = observe a t dt in
    let info = info_of a t dt in
    let more = Dict.set infos t.track_id info in
    let later =
      observe_all-IsObserved b rest dt more
        (record {
          moving = AllDistinct-set a.is_moving t.track_id info.is_moving i.moving;
          stopped = AllDistinct-set a.stopped_s t.track_id info.stopped_s i.stopped;
        })
        o.1 in
    let own = later.others t.track_id o.0 in
    let self : (t.track_id == t.track_id) ≡ true =
      ground (arith, nat_eq.test_iff t.track_id t.track_id) in
    record {
      distinct = later.distinct;
      stop = later.stop;
      resume = later.resume;
      others = λ k h.
          let apart : (t.track_id == k) ≡ false = ground arith in
          let rest_apart : listed (ids rest) k ≡ false = ground arith in
          let (m, n) = later.others k rest_apart in
          (
            m ∙ known-observe a t dt k ∙ (rw apart refl),
            n ∙ get-set infos t.track_id k info ∙ (rw apart refl),
          );
      seen = (
        (
          own.0 ∙ known-observe a t dt t.track_id ∙ (rw self refl),
          own.1 ∙ get-set infos t.track_id t.track_id info ∙ (rw self refl),
        ),
        seen_apart a t dt rest (observe_all b rest dt more).0 (observe_all b rest dt more).1 o.0
            later.seen,
      );
    }

seen_evicted :
    (a b : MovementAnalyzer) (dt : ℕ) (tracks : List Track) (a' : MovementAnalyzer)
    (infos' : Dict ℕ MovementInfo)
    → b.stop_threshold ≡ a.stop_threshold
    → b.resume_threshold ≡ a.resume_threshold
    → ((k : ℕ) → listed (ids tracks) k ≡ true → known b k ≡ known a k)
    → All (λ (t : Track). IsSeen (info_of b t dt) t.track_id a' infos') tracks
    → All (λ (t : Track). IsSeen (info_of a t dt) t.track_id a' infos') tracks
seen_evicted a b dt [] a' infos' s r kept seen = tt
seen_evicted a b dt (t ∷ rest) a' infos' s r kept seen =
    let self = kept t.track_id (ground (arith, nat_eq.test_iff t.track_id t.track_id)) in
    (
      subst (λ i. IsSeen i t.track_id a' infos') (info_of-known a b t dt s r self) seen.0,
      seen_evicted a b dt rest a' infos' s r (λ k h. kept k (ground (arith, h))) seen.1,
    )

-- What holds of every track holds of the one with a listed id.
pub listed-track {κ} :
    (P : Track → Type κ) (k : ℕ) (tracks : List Track)
    → All P tracks
    → listed (ids tracks) k ≡ true
    → (t : Track) × P t × (t.track_id ≡ k)
listed-track P k [] a h = absurd (cc)
listed-track P k (t ∷ rest) a h = elim (Bool-cases (t.track_id == k)) [
  | inl e ↦ (t, a.0, (nat_eq.test_iff t.track_id k).0 e)
  | inr e ↦ listed-track P k rest a.1 (rw e at h)
]

-- The thresholds stay, every track is classified from what was known of it and remembered so, and
-- of the ids without a track nothing is remembered.
pub record IsFrameSeen (a : MovementAnalyzer) (tracks : List Track) (dt : ℕ) (a' : MovementAnalyzer)
    (infos : Dict ℕ MovementInfo) : Type 0 where
  pub analyzing : IsAnalyzing a'
  pub stop : a'.stop_threshold ≡ a.stop_threshold
  pub resume : a'.resume_threshold ≡ a.resume_threshold
  pub seen : All (λ (t : Track). IsSeen (info_of a t dt) t.track_id a' infos) tracks
  pub forgotten :
      (k : ℕ)
      → listed (ids tracks) k ≡ false
      → (known a' k ≡ (none, none)) × (Dict.get infos k ≡ none)

-- After a frame in which no two tracks have the same id, the analyzer has classified every track by
-- its thresholds from what it knew of it before the frame, has handed that on and remembers it, and
-- it has forgotten all other ids, and its thresholds are as they were.
pub update-IsFrameSeen :
    (a : MovementAnalyzer) (tracks : List Track) (dt : ℕ)
    → IsAnalyzing a
    → AllDistinct (ids tracks)
    → IsFrameSeen a tracks dt (update a tracks dt).0 (update a tracks dt).1
unfolding update Dict.get
update-IsFrameSeen a tracks dt i o =
    let b = evict (ids tracks) a in
    let (e, left) = evict-known (ids tracks) a i in
    let after = observe_all-IsObserved b tracks dt [] e.distinct o in
    let out = observe_all b tracks dt [] in
    let kept : (k : ℕ) → listed (ids tracks) k ≡ true → known b k ≡ known a k =
      λ k h. left k ∙ (rw h refl) in
    let seen = seen_evicted a b dt tracks out.0 out.1 e.stop e.resume kept after.seen in
    let forgotten : (k : ℕ)
        → listed (ids tracks) k ≡ false
        → (known out.0 k ≡ (none, none)) × (Dict.get out.1 k ≡ none) =
      λ k h. ((after.others k h).0 ∙ left k ∙ (rw h refl), (after.others k h).1) in
    record {
      analyzing = record {
        moving_once = after.distinct.moving;
        stopped_once = after.distinct.stopped;
        classified_first = λ k none_moving. elim (Bool-cases (listed (ids tracks) k)) [
          | inl h ↦
              (let (t, s, same) =
                  listed-track (λ (t : Track). IsSeen (info_of a t dt) t.track_id out.0 out.1) k
                    tracks seen h in
                let was : Dict.get out.0.is_moving k ≡ some (info_of a t dt).is_moving =
                  rw (← same) (ap (λ (p : Option Bool × Option ℕ). p.0) s.0) in
                absurd (cc))
          | inr h ↦ ap (λ (p : Option Bool × Option ℕ). p.1) (forgotten k h).0
        ];
      };
      stop = after.stop ∙ e.stop;
      resume = after.resume ∙ e.resume;
      seen = seen;
      forgotten = forgotten;
    }
