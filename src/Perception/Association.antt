-- ===== src/Perception/Association.antt =====
-- What `_associate` of libs/sentinel/perception/tracking.py finds among its candidates.
use sentinal_ai_control_room.Prelude.{
  ℕ, ◌≡◌, refl, true, false, ◌||◌, List, [], ◌∷◌, ◌++◌, All, All-append, if◌then◌else◌, ◌==◌,
  nat_eq, inl, inr, Bool-cases, arith,
}
use sentinal_ai_control_room.Prelude.Dict.{listed}
use sentinal_ai_control_room.Prelude.Distinct.{AllDistinct, AllDistinct-snoc, map-snoc, listed-snoc}
use sentinal_ai_control_room.Perception.Geometry.{Detection}
use sentinal_ai_control_room.Perception.Candidates.{
  Holds, IsAt, Overlaps, IsSimilar, all_pairs-IsSimilar, all_pairs_complete,
}
use sentinal_ai_control_room.Perception.Tracking.{
  TrackRecord, IouTracker, Pair, all_pairs, before, insert_pair, sort_pairs, matched_tracks,
  matched_dets, is_taken, greedy, associate,
}

-- A matching: no track and no detection is in two of its pairs.
pub record IsMatching (matches : List Pair) : Type 0 where
  pub tracks_once : AllDistinct (matched_tracks matches)
  pub dets_once : AllDistinct (matched_dets matches)

module _ {κ} (P : Pair → Type κ) where
  All-insert_pair : (p : Pair) (ps : List Pair) → P p → All P ps → All P (insert_pair p ps)
  unfolding insert_pair
  All-insert_pair p [] own rest = (own, tt)
  All-insert_pair p (q ∷ qs) own rest = elim (Bool-cases (before p q)) [
    | inl h ↦ rw h (own, rest)
    | inr h ↦ rw h (rest.0, All-insert_pair p qs own rest.1)
  ]

  All-sort_pairs : (ps : List Pair) → All P ps → All P (sort_pairs ps)
  unfolding sort_pairs
  All-sort_pairs [] a = tt
  All-sort_pairs (p ∷ ps) a = All-insert_pair p (sort_pairs ps) a.0 (All-sort_pairs ps a.1)

  All-of_insert_pair : (p : Pair) (ps : List Pair) → All P (insert_pair p ps) → P p × All P ps
  unfolding insert_pair
  All-of_insert_pair p [] a = a
  All-of_insert_pair p (q ∷ qs) a = elim (Bool-cases (before p q)) [
    | inl h ↦ rw h at a
    | inr h ↦
        (let b : P q × All P (insert_pair p qs) = rw h at a in
          let (own, rest) = All-of_insert_pair p qs b.1 in (own, (b.0, rest)))
  ]

  All-of_sort_pairs : (ps : List Pair) → All P (sort_pairs ps) → All P ps
  unfolding sort_pairs
  All-of_sort_pairs [] a = tt
  All-of_sort_pairs (p ∷ ps) a =
      let (own, rest) = All-of_insert_pair p (sort_pairs ps) a in (own, All-of_sort_pairs ps rest)

  All-greedy : (ps matches : List Pair) → All P ps → All P matches → All P (greedy ps matches)
  unfolding greedy
  All-greedy [] matches a m = m
  All-greedy (p ∷ ps) matches a m = elim (Bool-cases (is_taken matches p)) [
    | inl h ↦ rw h (All-greedy ps matches a.1 m)
    | inr h ↦
        rw h (All-greedy ps (matches ++ p ∷ []) a.1 (All-append P matches (p ∷ []) m (a.0, tt)))
  ]

is_taken-snoc :
    (matches : List Pair) (p q : Pair)
    → is_taken (matches ++ p ∷ []) q
      ≡ (is_taken matches q || (p.track_id == q.track_id || p.det_index == q.det_index))
is_taken-snoc matches p q =
    let t = map-snoc (λ (r : Pair). r.track_id) matches p in
    let d = map-snoc (λ (r : Pair). r.det_index) matches p in
    let lt = listed-snoc (matched_tracks matches) p.track_id q.track_id in
    let ld = listed-snoc (matched_dets matches) p.det_index q.det_index in
    rw (t, d, lt, ld) (ground arith)

greedy-keeps :
    (ps matches : List Pair) (q : Pair)
    → is_taken matches q ≡ true
    → is_taken (greedy ps matches) q ≡ true
unfolding greedy
greedy-keeps [] matches q h = h
greedy-keeps (p ∷ ps) matches q h = elim (Bool-cases (is_taken matches p)) [
  | inl i ↦ rw i (greedy-keeps ps matches q h)
  | inr i ↦ rw i (greedy-keeps ps (matches ++ p ∷ []) q (rw (is_taken-snoc matches p q, h) refl))
]

is_taken-next :
    (matches : List Pair) (p : Pair)
    → is_taken (if is_taken matches p then matches else matches ++ p ∷ []) p ≡ true
is_taken-next matches p = elim (Bool-cases (is_taken matches p)) [
  | inl i ↦ rw (i, i) refl
  | inr i ↦ rw (i, is_taken-snoc matches p p) (ground arith)
]

greedy-takes : (ps matches : List Pair) → All (λ q. is_taken (greedy ps matches) q ≡ true) ps
unfolding greedy
greedy-takes [] matches = tt
greedy-takes (p ∷ ps) matches =
    let next = if is_taken matches p then matches else matches ++ p ∷ [] in
    (greedy-keeps ps next p (is_taken-next matches p), greedy-takes ps next)

greedy-IsMatching : (ps matches : List Pair) → IsMatching matches → IsMatching (greedy ps matches)
unfolding greedy
greedy-IsMatching [] matches m = m
greedy-IsMatching (p ∷ ps) matches m = elim (Bool-cases (is_taken matches p)) [
  | inl h ↦ rw h (greedy-IsMatching ps matches m)
  | inr h ↦
      (let tracks : listed (matched_tracks matches) p.track_id ≡ false = ground arith in
        let dets : listed (matched_dets matches) p.det_index ≡ false = ground arith in
        let more : IsMatching (matches ++ p ∷ []) = record {
          tracks_once =
              rw (map-snoc (λ (r : Pair). r.track_id) matches p)
                (AllDistinct-snoc (matched_tracks matches) p.track_id m.tracks_once tracks);
          dets_once =
              rw (map-snoc (λ (r : Pair). r.det_index) matches p)
                (AllDistinct-snoc (matched_dets matches) p.det_index m.dets_once dets);
        } in
        rw h (greedy-IsMatching ps (matches ++ p ∷ []) more))
]

-- The track or the detection is in one of the pairs.
abbrev pub IsTaken : List Pair → ℕ → ℕ → Type 0
IsTaken matches id k =
    (listed (matched_tracks matches) id || listed (matched_dets matches) k) ≡ true

-- `_associate` gives no track two detections and no detection two tracks. It pairs only a track and
-- a detection whose boxes overlap by the threshold at least, and of any such track and detection at
-- least one gets a partner.
pub associate-maximal :
    (t : IouTracker) (dets : List Detection)
    → IsMatching (associate t dets)
      × All (IsSimilar t.iou_threshold t.tracks dets) (associate t dets)
      × ((id k : ℕ) (r : TrackRecord) (det : Detection)
          → Holds t.tracks id r
          → IsAt k dets det
          → Overlaps t.iou_threshold r det
          → IsTaken (associate t dets) id k)
unfolding associate
associate-maximal t dets =
    let candidates = all_pairs t.iou_threshold t.tracks dets in
    let sorted = sort_pairs candidates in
    let P = IsSimilar t.iou_threshold t.tracks dets in
    (
      greedy-IsMatching sorted [] (record { tracks_once = tt; dets_once = tt }),
      All-greedy P sorted []
          (All-sort_pairs P candidates (all_pairs-IsSimilar t.iou_threshold t.tracks dets)) tt,
      λ id k r det.
          all_pairs_complete (IsTaken (greedy sorted [])) t.iou_threshold t.tracks dets id k r det (
            All-of_sort_pairs (λ q. is_taken (greedy sorted []) q ≡ true) candidates
              (greedy-takes sorted [])),
    )
