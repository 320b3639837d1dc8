-- ===== src/Shred/Assembly.antt =====
-- Record assembly is the inverse of striping: a reader gets back the nested values.
use nanoarrow2parquet.Common.{
  ℕ, zero, suc, ◌+◌, ◌<◌, ◌≤◌, ◌≡◌, refl, ap, ◌∙◌, arith, Bool, true, false, ◌==◌, leb, List, [],
  ◌∷◌, ◌++◌, append_assoc, append-nil, length, length-append, Option, none, some,
}
use nanoarrow2parquet.Schema.{
  PathStep, StepKind, struct_step, leaf_step, list_step, large_list_step, map_step,
}
use nanoarrow2parquet.Shred.Nested.{
  Cell, Cells, missing, there, value, entries, end, entry, Slot, slot, Stripe, Reader, stripe,
  stripe_step, stripe_kind, stripe_entries, stripe_more, assemble, read_step, read_kind,
  read_entries, read_more, read_value, and_entry, as_entries, Fits, FitsStep, FitsKind, AllEntries,
}

-- The repetition levels of a path grow from `k` on.
abbrev pub DeepensKind : StepKind → ℕ → ℕ → (ℕ → Type 0) → Type 0
DeepensKind leaf_step rep k P = Unit
DeepensKind struct_step rep k P = P k
DeepensKind _ rep k P = (k < rep) × P rep

abbrev pub Deepens : ℕ → List PathStep → Type 0
Deepens k [] = Unit
Deepens k (st ∷ sts) = DeepensKind st.kind st.rep_level k (λ k'. Deepens k' sts)

-- What follows a value does not repeat deeper than level `k`.
abbrev pub Stops : ℕ → List Slot → Type 0
Stops k [] = Unit
Stops k (t ∷ ts) = t.rep ≤ k

abbrev Below : ℕ → List Slot → Type 0
Below rep [] = Unit
Below rep (t ∷ ts) = t.rep < rep

Stops-Below : (k rep : ℕ) (rest : List Slot) → k < rep → Stops k rest → Below rep rest
Stops-Below k rep [] deep h = tt
Stops-Below k rep (t ∷ ts) deep h = omega arith

-- A value takes at least one place, the first at the given repetition level.
abbrev Starts : (Cell → Type 0) → Stripe → Type 0
Starts P S =
    (r d : ℕ) (c : Cell)
    → P c
    → (t : Slot) × (ts : List Slot) × (S r d c ≡ t ∷ ts) × (t.rep ≡ r) × (d ≤ t.def)

abbrev Inverts : ℕ → (Cell → Type 0) → Stripe → Reader → Type 0
Inverts k P S R =
    (r d : ℕ) (c : Cell) (rest : List Slot)
    → P c
    → Stops k rest
    → R d (S r d c ++ rest) ≡ some (c, rest)

abbrev count_entries : Cells → ℕ
count_entries end = 0
count_entries (entry c cs) = suc (count_entries cs)

read_more_step :
    (R : Reader) (rep d fuel : ℕ) (t : Slot) (ts rest : List Slot) (c : Cell)
    → t.rep ≡ rep
    → R d (t ∷ ts) ≡ some (c, rest)
    → read_more R rep d (suc fuel) (t ∷ ts) ≡ and_entry c (read_more R rep d fuel rest)
unfolding read_more
read_more_step R rep d fuel t ts rest c same read =
    let hit : (t.rep == rep) ≡ true = ground arith in rw (read_more, hit, read)

read_more_stop :
    (R : Reader) (rep d fuel : ℕ) (rest : List Slot)
    → Below rep rest
    → read_more R rep d fuel rest ≡ some (end, rest)
unfolding read_more
read_more_stop R rep d fuel [] h = refl
read_more_stop R rep d zero (t ∷ ts) h = ground arith
read_more_stop R rep d (suc fuel) (t ∷ ts) h =
    let other : (t.rep == rep) ≡ false = ground arith in rw (read_more, other)

read_entries_step :
    (R : Reader) (rep d : ℕ) (t : Slot) (ts rest : List Slot) (c : Cell)
    → leb t.def d ≡ false
    → R (d + 1) (t ∷ ts) ≡ some (c, rest)
    → read_entries R rep d (t ∷ ts)
      ≡ as_entries (and_entry c (read_more R rep (d + 1) (length rest) rest))
unfolding read_entries
read_entries_step R rep d t ts rest c deeper read = rw (read_entries, deeper, read)

module _ (P : Cell → Type 0) (S : Stripe) (starts : Starts P S) where
  stripe_more-Stops :
      (rep d : ℕ) (cs : Cells) (rest : List Slot)
      → AllEntries P cs
      → Below rep rest
      → Stops rep (stripe_more S rep d cs ++ rest)
  unfolding stripe_more
  stripe_more-Stops rep d end [] fits h = tt
  stripe_more-Stops rep d end (t ∷ ts) fits h = omega arith
  stripe_more-Stops rep d (entry c cs) rest fits h =
      let (t, ts, e, same, above) = starts rep d c fits.0 in rw e (omega (arith, same))

  count_entries-le :
      (rep d : ℕ) (cs : Cells) (rest : List Slot)
      → AllEntries P cs
      → count_entries cs ≤ length (stripe_more S rep d cs ++ rest)
  unfolding stripe_more
  count_entries-le rep d end rest fits = omega arith
  count_entries-le rep d (entry c cs) rest fits =
      let (t, ts, e, same, above) = starts rep d c fits.0 in
      rw (e, append_assoc)
        (omega (
          arith,
          count_entries-le rep d cs rest fits.1,
          length-append ts (stripe_more S rep d cs ++ rest),
        ))

  module _ (R : Reader) (rep : ℕ) (inverts : Inverts rep P S R) where
    read_more-stripe_more :
        (d fuel : ℕ) (cs : Cells) (rest : List Slot)
        → AllEntries P cs
        → Below rep rest
        → count_entries cs ≤ fuel
        → read_more R rep d fuel (stripe_more S rep d cs ++ rest) ≡ some (cs, rest)
    unfolding stripe_more
    read_more-stripe_more d fuel end rest fits h enough = read_more_stop R rep d fuel rest h
    read_more-stripe_more d zero (entry c cs) rest fits h enough = absurd (omega arith)
    read_more-stripe_more d (suc fuel) (entry c cs) rest fits h enough =
        let behind = stripe_more S rep d cs ++ rest in
        let (t, ts, e, same, above) = starts rep d c fits.0 in
        let read : R d (t ∷ (ts ++ behind)) ≡ some (c, behind) =
          rw e at (inverts rep d c behind fits.0 (stripe_more-Stops rep d cs rest fits.1 h)) in
        rw (e, append_assoc)
          (read_more_step R rep d fuel t (ts ++ behind) behind c same read
            ∙ ap (and_entry c) (read_more-stripe_more d fuel cs rest fits.1 h (omega arith)))

    read_entries-stripe_entries :
        (r d : ℕ) (cs : Cells) (rest : List Slot)
        → AllEntries P cs
        → Below rep rest
        → read_entries R rep d (stripe_entries S rep r d cs ++ rest) ≡ some (entries cs, rest)
    unfolding read_entries stripe_entries
    read_entries-stripe_entries r d end rest fits h = ground arith
    read_entries-stripe_entries r d (entry c cs) rest fits h =
        let behind = stripe_more S rep (d + 1) cs ++ rest in
        let (t, ts, e, same, above) = starts r (d + 1) c fits.0 in
        let read : R (d + 1) (t ∷ (ts ++ behind)) ≡ some (c, behind) =
          rw e at
            (inverts r (d + 1) c behind fits.0 (stripe_more-Stops rep (d + 1) cs rest fits.1 h)) in
        let below : leb t.def d ≡ false = ground (arith, above) in
        rw (e, append_assoc)
          (read_entries_step R rep d t (ts ++ behind) behind c below read
            ∙ ap (λ (x : Option (Cells × List Slot)). as_entries (and_entry c x))
                (read_more-stripe_more (d + 1) (length behind) cs rest fits.1 h
                  (count_entries-le rep (d + 1) cs rest fits.1)))

  stripe_entries-Starts :
      (rep r d : ℕ) (cs : Cells)
      → AllEntries P cs
      → (t : Slot) × (ts : List Slot) × (stripe_entries S rep r d cs ≡ t ∷ ts)
        × (t.rep ≡ r)
        × (d ≤ t.def)
  unfolding stripe_entries
  stripe_entries-Starts rep r d end fits = (slot r d none, [], refl, refl, omega arith)
  stripe_entries-Starts rep r d (entry c cs) fits =
      let (t, ts, e, same, above) = starts r (d + 1) c fits.0 in
      (t, ts ++ stripe_more S rep (d + 1) cs, rw e, same, omega (arith, above))

  stripe_kind-Starts : (k : StepKind) (rep : ℕ) → Starts (FitsKind k P) (stripe_kind k S rep)
  unfolding stripe_kind
  stripe_kind-Starts leaf_step rep r d (value p) fits =
      (slot r d (some p), [], refl, refl, omega arith)
  stripe_kind-Starts leaf_step rep r d missing fits = absurd fits
  stripe_kind-Starts leaf_step rep r d (there c) fits = absurd fits
  stripe_kind-Starts leaf_step rep r d (entries cs) fits = absurd fits
  stripe_kind-Starts struct_step rep r d c fits = starts r d c fits
  stripe_kind-Starts list_step rep r d (entries cs) fits = stripe_entries-Starts rep r d cs fits
  stripe_kind-Starts list_step rep r d (value p) fits = absurd fits
  stripe_kind-Starts list_step rep r d missing fits = absurd fits
  stripe_kind-Starts list_step rep r d (there c) fits = absurd fits
  stripe_kind-Starts large_list_step rep r d (entries cs) fits =
      stripe_entries-Starts rep r d cs fits
  stripe_kind-Starts large_list_step rep r d (value p) fits = absurd fits
  stripe_kind-Starts large_list_step rep r d missing fits = absurd fits
  stripe_kind-Starts large_list_step rep r d (there c) fits = absurd fits
  stripe_kind-Starts map_step rep r d (entries cs) fits = stripe_entries-Starts rep r d cs fits
  stripe_kind-Starts map_step rep r d (value p) fits = absurd fits
  stripe_kind-Starts map_step rep r d missing fits = absurd fits
  stripe_kind-Starts map_step rep r d (there c) fits = absurd fits

  stripe_step-Starts : (o : Bool) → Starts (FitsStep o P) (stripe_step o S)
  unfolding stripe_step
  stripe_step-Starts false r d c fits = starts r d c fits
  stripe_step-Starts true r d missing fits = (slot r d none, [], refl, refl, omega arith)
  stripe_step-Starts true r d (there c) fits =
      let (t, ts, e, same, above) = starts r (d + 1) c fits in
      (t, ts, e, same, omega (arith, above))
  stripe_step-Starts true r d (value p) fits = absurd fits
  stripe_step-Starts true r d (entries cs) fits = absurd fits

  module _ (R : Reader) (k rep : ℕ) where
    read_kind-stripe_kind :
        (kind : StepKind)
        → DeepensKind kind rep k (λ k'. Inverts k' P S R)
        → Inverts k (FitsKind kind P) (stripe_kind kind S rep) (read_kind kind R rep)
    unfolding stripe_kind read_kind read_value
    read_kind-stripe_kind leaf_step h r d (value p) rest fits stops = refl
    read_kind-stripe_kind leaf_step h r d missing rest fits stops = absurd fits
    read_kind-stripe_kind leaf_step h r d (there c) rest fits stops = absurd fits
    read_kind-stripe_kind leaf_step h r d (entries cs) rest fits stops = absurd fits
    read_kind-stripe_kind struct_step h r d c rest fits stops = h r d c rest fits stops
    read_kind-stripe_kind list_step h r d (entries cs) rest fits stops =
        read_entries-stripe_entries R rep h.1 r d cs rest fits (Stops-Below k rep rest h.0 stops)
    read_kind-stripe_kind list_step h r d (value p) rest fits stops = absurd fits
    read_kind-stripe_kind list_step h r d missing rest fits stops = absurd fits
    read_kind-stripe_kind list_step h r d (there c) rest fits stops = absurd fits
    read_kind-stripe_kind large_list_step h r d (entries cs) rest fits stops =
        read_entries-stripe_entries R rep h.1 r d cs rest fits (Stops-Below k rep rest h.0 stops)
    read_kind-stripe_kind large_list_step h r d (value p) rest fits stops = absurd fits
    read_kind-stripe_kind large_list_step h r d missing rest fits stops = absurd fits
    read_kind-stripe_kind large_list_step h r d (there c) rest fits stops = absurd fits
    read_kind-stripe_kind map_step h r d (entries cs) rest fits stops =
        read_entries-stripe_entries R rep h.1 r d cs rest fits (Stops-Below k rep rest h.0 stops)
    read_kind-stripe_kind map_step h r d (value p) rest fits stops = absurd fits
    read_kind-stripe_kind map_step h r d missing rest fits stops = absurd fits
    read_kind-stripe_kind map_step h r d (there c) rest fits stops = absurd fits

  read_step-stripe_step :
      (R : Reader) (k : ℕ) (o : Bool)
      → Inverts k P S R
      → Inverts k (FitsStep o P) (stripe_step o S) (read_step o R)
  unfolding stripe_step read_step
  read_step-stripe_step R k false h r d c rest fits stops = h r d c rest fits stops
  read_step-stripe_step R k true h r d missing rest fits stops = ground arith
  read_step-stripe_step R k true h r d (there c) rest fits stops =
      let (t, ts, e, same, above) = starts r (d + 1) c fits in
      let deeper : leb t.def d ≡ false = ground (arith, above) in
      let read : R (d + 1) (t ∷ (ts ++ rest)) ≡ some (c, rest) =
        rw e at (h r (d + 1) c rest fits stops) in
      rw (e, deeper, read)
  read_step-stripe_step R k true h r d (value p) rest fits stops = absurd fits
  read_step-stripe_step R k true h r d (entries cs) rest fits stops = absurd fits

stripe-Starts : (sts : List PathStep) → Starts (Fits sts) (stripe sts)
unfolding stripe
stripe-Starts [] r d c fits = absurd fits
stripe-Starts (st ∷ sts) r d c fits =
    stripe_step-Starts (FitsKind st.kind (Fits sts)) _
      (stripe_kind-Starts (Fits sts) (stripe sts) (stripe-Starts sts) st.kind st.rep_level)
      st.optional r d c fits

DeepensKind-map :
    (kind : StepKind) (rep k : ℕ) (P Q : ℕ → Type 0)
    → ((k' : ℕ) → P k' → Q k')
    → DeepensKind kind rep k P
    → DeepensKind kind rep k Q
DeepensKind-map leaf_step rep k P Q f h = tt
DeepensKind-map struct_step rep k P Q f h = f k h
DeepensKind-map list_step rep k P Q f h = (h.0, f rep h.1)
DeepensKind-map large_list_step rep k P Q f h = (h.0, f rep h.1)
DeepensKind-map map_step rep k P Q f h = (h.0, f rep h.1)

-- A value that fits a path is read back from the places that it takes, whatever follows it, as long
-- as that does not repeat deeper than the path begins.
pub assemble-stripe :
    (sts : List PathStep) (k r d : ℕ) (c : Cell) (rest : List Slot)
    → Deepens k sts
    → Fits sts c
    → Stops k rest
    → assemble sts d (stripe sts r d c ++ rest) ≡ some (c, rest)
unfolding assemble stripe
assemble-stripe [] k r d c rest deep fits stops = absurd fits
assemble-stripe (st ∷ sts) k r d c rest deep fits stops =
    let inner : Inverts k (FitsKind st.kind (Fits sts))
        (stripe_kind st.kind (stripe sts) st.rep_level)
        (read_kind st.kind (assemble sts) st.rep_level) =
      read_kind-stripe_kind (Fits sts) (stripe sts) (stripe-Starts sts) (assemble sts) k
        st.rep_level st.kind
        (DeepensKind-map st.kind st.rep_level k (λ k'. Deepens k' sts)
          (λ k'. Inverts k' (Fits sts) (stripe sts) (assemble sts))
          (λ k' h r' d' c' rest' fits' stops'. assemble-stripe sts k' r' d' c' rest' h fits' stops')
          deep) in
    read_step-stripe_step (FitsKind st.kind (Fits sts))
      (stripe_kind st.kind (stripe sts) st.rep_level)
      (stripe_kind-Starts (Fits sts) (stripe sts) (stripe-Starts sts) st.kind st.rep_level)
      (read_kind st.kind (assemble sts) st.rep_level) k st.optional inner r d c rest fits stops

-- Rows are striped one behind the other, each from repetition level 0 on, and read back alike.
pub rows_round_trip :
    (sts : List PathStep) (rows : Cells)
    → Deepens 0 sts
    → AllEntries (Fits sts) rows
    → read_more
        (assemble sts)
        0
        0
        (length (stripe_more (stripe sts) 0 0 rows))
        (stripe_more (stripe sts) 0 0 rows)
      ≡ some (rows, [])
rows_round_trip sts rows deep fits =
    let S = stripe sts in
    let slots = stripe_more S 0 0 rows in
    let enough = count_entries-le (Fits sts) S (stripe-Starts sts) 0 0 rows [] fits in
    let whole =
      read_more-stripe_more (Fits sts) S (stripe-Starts sts) (assemble sts) 0
        (λ r d c rest. assemble-stripe sts 0 r d c rest deep) 0 (length slots) rows [] fits tt
        (rw append-nil at enough) in
    rw append-nil at whole
