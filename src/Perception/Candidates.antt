-- ===== src/Perception/Candidates.antt =====
-- What `_associate` of libs/sentinel/perception/tracking.py weighs: each track's box against the box
-- of each detection.
use mathlib.Core.Path.{subst}
use sentinal_ai_control_room.Prelude.{
  ℕ, zero, suc, ◌+◌, ◌*◌, ◌≤◌, ◌≡◌, refl, sym, ◌∙◌, ◌⊎◌, inl, inr, true, List, [], ◌∷◌, ◌++◌, leb,
  All, All-append, Bool-cases, arith,
}
use sentinal_ai_control_room.Prelude.Dict.{Dict}
use sentinal_ai_control_room.Perception.Geometry.{Detection}
use sentinal_ai_control_room.Perception.Tracking.{iou, TrackRecord, Pair, pairs_of, all_pairs}

-- The tracks have this record under this id.
abbrev pub Holds : Dict ℕ TrackRecord → ℕ → TrackRecord → Type 0
Holds [] id r = ⊥
Holds ((id', r') ∷ tracks) id r = ((id' ≡ id) × (r' ≡ r)) ⊎ Holds tracks id r

-- The detection stands at this index.
abbrev pub IsAt : ℕ → List Detection → Detection → Type 0
IsAt i [] det = ⊥
IsAt zero (d ∷ dets) det = d ≡ det
IsAt (suc i) (d ∷ dets) det = IsAt i dets det

-- The boxes of the track and of the detection overlap by the threshold at least.
abbrev pub Overlaps : ℕ → TrackRecord → Detection → Type 0
Overlaps threshold r det = threshold * (iou r.box det.box).den ≤ 1000 * (iou r.box det.box).num

-- The pair is of one of the tracks and of the detection at its index, which overlap.
pub record IsSimilar (threshold : ℕ) (tracks : Dict ℕ TrackRecord) (dets : List Detection)
    (p : Pair) : Type 0 where
  pub track : TrackRecord
  pub held : Holds tracks p.track_id track
  pub at_index : IsAt p.det_index dets p.det
  pub overlapping : Overlaps threshold track p.det

-- The same of the pairs of one track, with the detections from an index on.
record IsSimilarTo (threshold id : ℕ) (r : TrackRecord) (i : ℕ) (dets : List Detection) (p : Pair)
    : Type 0 where
  pub named : p.track_id ≡ id
  pub offset : ℕ
  pub index : p.det_index ≡ i + offset
  pub at_index : IsAt offset dets p.det
  pub overlapping : Overlaps threshold r p.det

module _ {P Q : Pair → Type 0} where
  All-map : (ps : List Pair) → ((p : Pair) → P p → Q p) → All P ps → All Q ps
  All-map [] f h = tt
  All-map (p ∷ ps) f h = (f p h.0, All-map ps f h.1)

pairs_of-IsSimilarTo :
    (threshold id : ℕ) (r : TrackRecord) (i : ℕ) (dets : List Detection)
    → All (IsSimilarTo threshold id r i dets) (pairs_of threshold id r i dets)
unfolding pairs_of
pairs_of-IsSimilarTo threshold id r i [] = tt
pairs_of-IsSimilarTo threshold id r i (det ∷ rest) =
    let score = iou r.box det.box in
    let more =
      All-map {Q = IsSimilarTo threshold id r i (det ∷ rest)} (pairs_of threshold id r (i + 1) rest)
        (λ p h. record {
          named = h.named;
          offset = suc h.offset;
          index = omega (arith, h.index);
          at_index = h.at_index;
          overlapping = h.overlapping;
        })
        (pairs_of-IsSimilarTo threshold id r (i + 1) rest) in
    elim (Bool-cases (leb (threshold * score.den) (1000 * score.num))) [
      | inl h ↦ rw h (
        record {
          named = refl;
          offset = 0;
          index = omega arith;
          at_index = refl;
          overlapping = ground arith;
        },
        more,
      )
      | inr h ↦ rw h more
    ]

no_offset : (k : ℕ) → 0 + k ≡ k
no_offset k = omega arith

pub all_pairs-IsSimilar :
    (threshold : ℕ) (tracks : Dict ℕ TrackRecord) (dets : List Detection)
    → All (IsSimilar threshold tracks dets) (all_pairs threshold tracks dets)
unfolding all_pairs
all_pairs-IsSimilar threshold [] dets = tt
all_pairs-IsSimilar threshold ((id, r) ∷ rest) dets =
    let tracks = (id, r) ∷ rest in
    let own =
      All-map {Q = IsSimilar threshold tracks dets} (pairs_of threshold id r 0 dets)
        (λ p h. record {
          track = r;
          held = inl (sym h.named, refl);
          at_index = subst (λ j. IsAt j dets p.det) (sym (h.index ∙ no_offset h.offset)) h.at_index;
          overlapping = h.overlapping;
        })
        (pairs_of-IsSimilarTo threshold id r 0 dets) in
    let others =
      All-map {Q = IsSimilar threshold tracks dets} (all_pairs threshold rest dets)
        (λ p h. record {
          track = h.track;
          held = inr h.held;
          at_index = h.at_index;
          overlapping = h.overlapping;
        })
        (all_pairs-IsSimilar threshold rest dets) in
    All-append (IsSimilar threshold tracks dets) (pairs_of threshold id r 0 dets)
      (all_pairs threshold rest dets) own others

-- What holds of each candidate holds of each track and detection that overlap.
module _ (P : ℕ → ℕ → Type 0) where
  abbrev pub OfPair : Pair → Type 0
  OfPair p = P p.track_id p.det_index

  All-of_append : (ps qs : List Pair) → All OfPair (ps ++ qs) → All OfPair ps × All OfPair qs
  All-of_append [] qs h = (tt, h)
  All-of_append (p ∷ ps) qs h = let (front, back) = All-of_append ps qs h.1 in ((h.0, front), back)

  pairs_of_complete :
      (threshold id : ℕ) (r : TrackRecord) (i k : ℕ) (dets : List Detection) (det : Detection)
      → All OfPair (pairs_of threshold id r i dets)
      → IsAt k dets det
      → Overlaps threshold r det
      → P id (i + k)
  unfolding pairs_of
  pairs_of_complete threshold id r i k [] det h a o = elim a [ ]
  pairs_of_complete threshold id r i zero (d ∷ dets) det h a o =
      let over : Overlaps threshold r d = rw a o in
      let score = iou r.box d.box in
      let test : leb (threshold * score.den) (1000 * score.num) ≡ true = ground (arith, over) in
      let own : P id i × All OfPair (pairs_of threshold id r (i + 1) dets) = rw test at h in
      subst (P id) (omega arith) own.0
  pairs_of_complete threshold id r i (suc k) (d ∷ dets) det h a o =
      let score = iou r.box d.box in
      let later : All OfPair (pairs_of threshold id r (i + 1) dets) =
        elim (Bool-cases (leb (threshold * score.den) (1000 * score.num))) [
          | inl e ↦
              (let own : P id i × All OfPair (pairs_of threshold id r (i + 1) dets) = rw e at h in
                own.1)
          | inr e ↦ rw e at h
        ] in
      subst (P id) (omega arith) (pairs_of_complete threshold id r (i + 1) k dets det later a o)

  pub all_pairs_complete :
      (threshold : ℕ) (tracks : Dict ℕ TrackRecord) (dets : List Detection) (id k : ℕ)
      (r : TrackRecord) (det : Detection)
      → All OfPair (all_pairs threshold tracks dets)
      → Holds tracks id r
      → IsAt k dets det
      → Overlaps threshold r det
      → P id k
  unfolding all_pairs
  all_pairs_complete threshold [] dets id k r det h held a o = elim held [ ]
  all_pairs_complete threshold ((id', r') ∷ rest) dets id k r det h (inl held) a o =
      let over : Overlaps threshold r' det = rw held.1 o in
      let own =
        (All-of_append (pairs_of threshold id' r' 0 dets) (all_pairs threshold rest dets) h).0 in
      rw (← held.0)
        (subst (P id') (no_offset k) (pairs_of_complete threshold id' r' 0 k dets det own a over))
  all_pairs_complete threshold ((id', r') ∷ rest) dets id k r det h (inr held) a o =
      all_pairs_complete threshold rest dets id k r det
        (All-of_append (pairs_of threshold id' r' 0 dets) (all_pairs threshold rest dets) h).1 held
        a o
