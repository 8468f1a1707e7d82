-- ===== src/Perception/Identity.antt =====
-- The ids that `IouTracker` of libs/sentinel/perception/tracking.py gives to its tracks.
use sentinal_ai_control_room.Prelude.{
  ℕ, ◌+◌, ◌≤◌, ◌<◌, ◌≡◌, refl, ◌∙◌, true, false, List, [], ◌∷◌, length, ltb, nat_eq, inl, inr,
  Bool-cases, Option-cases, arith,
}
use sentinal_ai_control_room.Prelude.Dict
use sentinal_ai_control_room.Prelude.Dict.{
  Dict, keys, listed, AllEntries, AllEntries-get, AllEntries-set, keys-set_known,
}
use sentinal_ai_control_room.Prelude.Distinct.{AllDistinct, AllDistinct-snoc, keys-set_new}
use sentinal_ai_control_room.Contracts.Enums.{Direction}
use sentinal_ai_control_room.Perception.Geometry.{Detection}
use sentinal_ai_control_room.Perception.Tracking.{
  TrackRecord, IouTracker, Pair, associate, unmatched_dets, unmatched_tracks, new_record,
  create_track, updated_record, missed_record, modify, update_matched, create_all, miss_all, evict,
  is_confirmed, confirmed, update,
}
use sentinal_ai_control_room.Perception.Movement.{ids}

-- A record knows the id that it is kept under, which is below the next one to be given.
pub record IsNamed (bound : ℕ) (id : ℕ) (r : TrackRecord) : Type 0 where
  pub named : r.track_id ≡ id
  pub below : id < bound

pub record IsTracking (t : IouTracker) : Type 0 where
  pub kept : AllEntries (IsNamed t.next_id) t.tracks
  pub keys_once : AllDistinct (keys t.tracks)

-- The same of a frame in progress: what was not among the keys of the tracks at its start has an id
-- that was not given before.
record IsOwn (base : List ℕ) (start bound : ℕ) (id : ℕ) (r : TrackRecord) : Type 0 where
  named : r.track_id ≡ id
  below : id < bound
  origin : listed base id ≡ false → start ≤ id

record IsTracked (base : List ℕ) (start bound : ℕ) (tracks : Dict ℕ TrackRecord) : Type 0 where
  own : AllEntries (IsOwn base start bound) tracks
  once : AllDistinct (keys tracks)

module _ (base : List ℕ) (start : ℕ) where
  modify-own :
      (bound : ℕ) (f : TrackRecord → TrackRecord)
      → ((r : TrackRecord) → (f r).track_id ≡ r.track_id)
      → (id : ℕ) (tracks : Dict ℕ TrackRecord) → IsTracked base start bound tracks
      → IsTracked base start bound (modify f id tracks)
  unfolding modify
  modify-own bound f same id tracks h = elim (Option-cases (Dict.get tracks id)) [
    | inl g ↦ rw (modify, g) h
    | inr (r, g) ↦
        (let own = AllEntries-get (IsOwn base start bound) tracks id r h.own g in
          let own' : IsOwn base start bound id (f r) = record {
            named = same r ∙ own.named;
            below = own.below;
            origin = own.origin;
          } in
          rw (modify, g)
            (record {
              own = AllEntries-set (IsOwn base start bound) tracks id (f r) h.own own';
              once = rw (keys-set_known tracks id r (f r) g) h.once;
            }))
  ]

  update_matched-own :
      (bound dt : ℕ) (matches : List Pair) (tracks : Dict ℕ TrackRecord)
      → IsTracked base start bound tracks
      → IsTracked base start bound (update_matched dt matches tracks)
  unfolding update_matched
  update_matched-own bound dt [] tracks h = h
  update_matched-own bound dt (p ∷ ps) tracks h =
      let changed = updated_record dt p.det in
      update_matched-own bound dt ps (modify changed p.track_id tracks)
        (modify-own bound changed (λ r. refl) p.track_id tracks h)

  miss_all-own :
      (bound : ℕ) (missed : List ℕ) (tracks : Dict ℕ TrackRecord)
      → IsTracked base start bound tracks
      → IsTracked base start bound (miss_all missed tracks)
  unfolding miss_all
  miss_all-own bound [] tracks h = h
  miss_all-own bound (id ∷ rest) tracks h =
      miss_all-own bound rest (modify missed_record id tracks)
        (modify-own bound missed_record (λ r. refl) id tracks h)

  raise_bound :
      (bound : ℕ) (tracks : Dict ℕ TrackRecord)
      → AllEntries (IsOwn base start bound) tracks
      → AllEntries (IsOwn base start (bound + 1)) tracks
  raise_bound bound [] h = tt
  raise_bound bound ((id, r) ∷ rest) h =
      let first : IsOwn base start (bound + 1) id r = record {
        named = h.0.named;
        below = omega (arith, h.0.below);
        origin = h.0.origin;
      } in
      (first, raise_bound bound rest h.1)

  next_unlisted :
      (bound : ℕ) (tracks : Dict ℕ TrackRecord)
      → AllEntries (IsOwn base start bound) tracks
      → listed (keys tracks) bound ≡ false
  next_unlisted bound [] h = refl
  next_unlisted bound ((id, r) ∷ rest) h =
      ground (arith, h.0.below, next_unlisted bound rest h.1, nat_eq.test_iff id bound)

  create_all-own :
      (t : IouTracker) (dets : List Detection)
      → start ≤ t.next_id
      → IsTracked base start t.next_id t.tracks
      → IsTracked base start (create_all t dets).next_id (create_all t dets).tracks
        × ((create_all t dets).next_id ≡ t.next_id + length dets)
  unfolding create_all create_track
  create_all-own t [] s h = (h, omega arith)
  create_all-own t (det ∷ rest) s h =
      let made = new_record t.next_id det in
      let own : IsOwn base start (t.next_id + 1) t.next_id made = record {
        named = refl;
        below = omega arith;
        origin = λ unlisted. s;
      } in
      let unlisted = next_unlisted t.next_id t.tracks h.own in
      let step : IsTracked base start (t.next_id + 1) (Dict.set t.tracks t.next_id made) = record {
        own =
            AllEntries-set (IsOwn base start (t.next_id + 1)) t.tracks t.next_id made
              (raise_bound t.next_id t.tracks h.own) own;
        once =
            rw (keys-set_new t.tracks t.next_id made unlisted)
              (AllDistinct-snoc (keys t.tracks) t.next_id h.once unlisted);
      } in
      let (rest_own, count) = create_all-own (create_track t det) rest (omega (arith, s)) step in
      (rest_own, omega (arith, count))

  evict-own :
      (bound max_misses : ℕ) (tracks : Dict ℕ TrackRecord)
      → IsTracked base start bound tracks
      → IsTracked base start bound (evict max_misses tracks)
        × ((k : ℕ)
            → listed (keys tracks) k ≡ false
            → listed (keys (evict max_misses tracks)) k ≡ false)
  unfolding evict
  evict-own bound max_misses [] h = (h, λ k u. u)
  evict-own bound max_misses ((id, r) ∷ rest) h =
      let (i, u) = evict-own bound max_misses rest (record { own = h.own.1; once = h.once.1 }) in
      elim (Bool-cases (ltb max_misses r.misses)) [
        | inl e ↦ rw e (i, λ k unlisted. u k (ground arith))
        | inr e ↦ rw e (
          record { own = (h.own.0, i.own); once = (u id h.once.0, i.once) },
          λ k unlisted. ground (arith, u k),
        )
      ]

listed-self :
    (base : List ℕ) (tracks : Dict ℕ TrackRecord)
    → ((k : ℕ) → listed (keys tracks) k ≡ true → listed base k ≡ true)
    → (bound : ℕ) → AllEntries (IsNamed bound) tracks
    → AllEntries (IsOwn base bound bound) tracks
listed-self base [] within bound h = tt
listed-self base ((id, r) ∷ rest) within bound h =
    let known : listed base id ≡ true = within id (ground (arith, nat_eq.test_iff id id)) in
    let first : IsOwn base bound bound id r = record {
      named = h.0.named;
      below = h.0.below;
      origin = λ unlisted. absurd (cc);
    } in
    (first, listed-self base rest (λ k l. within k (ground (arith, l))) bound h.1)

confirmed-once :
    (t : IouTracker) (lane : Direction) (base : List ℕ) (start bound : ℕ)
    (tracks : Dict ℕ TrackRecord)
    → IsTracked base start bound tracks
    → AllDistinct (ids (confirmed t lane tracks))
      × ((k : ℕ)
          → listed (keys tracks) k ≡ false
          → listed (ids (confirmed t lane tracks)) k ≡ false)
unfolding confirmed
confirmed-once t lane base start bound [] h = (tt, λ k u. u)
confirmed-once t lane base start bound ((id, r) ∷ rest) h =
    let (once, u) =
      confirmed-once t lane base start bound rest (record { own = h.own.1; once = h.once.1 }) in
    let same = h.own.0.named in
    elim (Bool-cases (is_confirmed t r)) [
      | inl c ↦ rw c ((rw same (u id h.once.0), once), λ k unlisted. ground (arith, u k, same))
      | inr c ↦ rw c (once, λ k unlisted. u k (ground (arith, unlisted)))
    ]

forget :
    (base : List ℕ) (start bound : ℕ) (tracks : Dict ℕ TrackRecord)
    → AllEntries (IsOwn base start bound) tracks
    → AllEntries (IsNamed bound) tracks
      × AllEntries (λ id r. listed base id ≡ false → start ≤ id) tracks
forget base start bound [] h = (tt, tt)
forget base start bound ((id, r) ∷ rest) h =
    let (named, origin) = forget base start bound rest h.1 in
    ((record { named = h.0.named; below = h.0.below }, named), (h.0.origin, origin))

-- A frame keeps the tracker consistent: every record knows the id that it is kept under, no id is
-- kept twice, and every id is below the next one to be given. The next id grows by the number of the
-- detections without a track, an id that was not among the keys at the start of the frame is one
-- that was never given before, and no two of the tracks that are emitted have the same id.
pub update-IsTracking :
    (t : IouTracker) (dets : List Detection) (dt : ℕ) (lane : Direction)
    → IsTracking t
    → IsTracking (update t dets dt lane).0
      × ((update t dets dt lane).0.next_id
          ≡ t.next_id + length (unmatched_dets (associate t dets) 0 dets))
      × AllEntries
          (λ id r. listed (keys t.tracks) id ≡ false → t.next_id ≤ id)
          (update t dets dt lane).0.tracks
      × AllDistinct (ids (update t dets dt lane).1)
unfolding update
update-IsTracking t dets dt lane h =
    let base = keys t.tracks in
    let start = t.next_id in
    let matches = associate t dets in
    let before : IsTracked base start start t.tracks = record {
      own = listed-self base t.tracks (λ k l. l) start h.kept;
      once = h.keys_once;
    } in
    let tracks = update_matched dt matches t.tracks in
    let matched = update_matched-own base start start dt matches t.tracks before in
    let created = create_all (record t { tracks = tracks }) (unmatched_dets matches 0 dets) in
    let (own, count) =
      create_all-own base start (record t { tracks = tracks }) (unmatched_dets matches 0 dets)
        (omega arith) matched in
    let missed = unmatched_tracks matches base in
    let aged = miss_all-own base start created.next_id missed created.tracks own in
    let (left, unlisted) =
      evict-own base start created.next_id t.max_misses (miss_all missed created.tracks) aged in
    let (named, origin) =
      forget base start created.next_id (evict t.max_misses (miss_all missed created.tracks))
        left.own in
    let t' = record created { tracks = evict t.max_misses (miss_all missed created.tracks) } in
    let (emitted, rest) = confirmed-once t' lane base start created.next_id t'.tracks left in
    (record { kept = named; keys_once = left.once }, count, origin, emitted)
