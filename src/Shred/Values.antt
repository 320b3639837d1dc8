-- ===== src/Shred/Values.antt =====
-- The places of a nested value hold the positions of its values, in its order.
use nanoarrow2parquet.Common.{
  ℕ, ◌+◌, ◌≡◌, refl, ap, ◌∙◌, Bool, true, false, List, [], ◌∷◌, ◌++◌, Option, none, some,
}
use nanoarrow2parquet.Schema.{
  PathStep, StepKind, struct_step, leaf_step, list_step, large_list_step, map_step,
}
use nanoarrow2parquet.Shred.Nested.{
  Cell, Cells, missing, there, value, entries, end, entry, positions, all_positions, Slot, Stripe,
  stripe, stripe_step, stripe_kind, stripe_entries, stripe_more, Fits, FitsStep, FitsKind,
  AllEntries,
}

abbrev pub front_value : Option ℕ → List ℕ → List ℕ
front_value none ps = ps
front_value (some p) ps = p ∷ ps

abbrev pub values_of : List Slot → List ℕ
values_of [] = []
values_of (t ∷ ts) = front_value t.held (values_of ts)

values_of-append : (ts us : List Slot) → values_of (ts ++ us) ≡ values_of ts ++ values_of us
values_of-append [] us = refl
values_of-append (t ∷ ts) us = front t.held (values_of-append ts us)
  where
    front :
        (v : Option ℕ)
        → values_of (ts ++ us) ≡ values_of ts ++ values_of us
        → front_value v (values_of (ts ++ us)) ≡ front_value v (values_of ts) ++ values_of us
    front none ih = ih
    front (some p) ih = ap (λ (ps : List ℕ). p ∷ ps) ih

abbrev HoldsValues : (Cell → Type 0) → Stripe → Type 0
HoldsValues P S = (r d : ℕ) (c : Cell) → P c → values_of (S r d c) ≡ positions c

module _ (P : Cell → Type 0) (S : Stripe) (holds : HoldsValues P S) where
  pub stripe_more-values :
      (rep d : ℕ) (cs : Cells)
      → AllEntries P cs
      → values_of (stripe_more S rep d cs) ≡ all_positions cs
  unfolding stripe_more positions
  stripe_more-values rep d end fits = refl
  stripe_more-values rep d (entry c cs) fits =
      values_of-append (S rep d c) (stripe_more S rep d cs)
      ∙ ap (λ (ps : List ℕ). ps ++ values_of (stripe_more S rep d cs)) (holds rep d c fits.0)
      ∙ ap (λ (ps : List ℕ). positions c ++ ps) (stripe_more-values rep d cs fits.1)

  stripe_entries-values :
      (rep r d : ℕ) (cs : Cells)
      → AllEntries P cs
      → values_of (stripe_entries S rep r d cs) ≡ all_positions cs
  unfolding stripe_entries positions
  stripe_entries-values rep r d end fits = refl
  stripe_entries-values rep r d (entry c cs) fits =
      values_of-append (S r (d + 1) c) (stripe_more S rep (d + 1) cs)
      ∙ ap (λ (ps : List ℕ). ps ++ values_of (stripe_more S rep (d + 1) cs))
          (holds r (d + 1) c fits.0)
      ∙ ap (λ (ps : List ℕ). positions c ++ ps) (stripe_more-values rep (d + 1) cs fits.1)

  stripe_kind-HoldsValues :
      (k : StepKind) (rep : ℕ) → HoldsValues (FitsKind k P) (stripe_kind k S rep)
  unfolding stripe_kind positions
  stripe_kind-HoldsValues leaf_step rep r d (value p) fits = refl
  stripe_kind-HoldsValues leaf_step rep r d missing fits = absurd fits
  stripe_kind-HoldsValues leaf_step rep r d (there c) fits = absurd fits
  stripe_kind-HoldsValues leaf_step rep r d (entries cs) fits = absurd fits
  stripe_kind-HoldsValues struct_step rep r d c fits = holds r d c fits
  stripe_kind-HoldsValues list_step rep r d (entries cs) fits =
      stripe_entries-values rep r d cs fits
  stripe_kind-HoldsValues list_step rep r d missing fits = absurd fits
  stripe_kind-HoldsValues list_step rep r d (there c) fits = absurd fits
  stripe_kind-HoldsValues list_step rep r d (value p) fits = absurd fits
  stripe_kind-HoldsValues large_list_step rep r d (entries cs) fits =
      stripe_entries-values rep r d cs fits
  stripe_kind-HoldsValues large_list_step rep r d missing fits = absurd fits
  stripe_kind-HoldsValues large_list_step rep r d (there c) fits = absurd fits
  stripe_kind-HoldsValues large_list_step rep r d (value p) fits = absurd fits
  stripe_kind-HoldsValues map_step rep r d (entries cs) fits = stripe_entries-values rep r d cs fits
  stripe_kind-HoldsValues map_step rep r d missing fits = absurd fits
  stripe_kind-HoldsValues map_step rep r d (there c) fits = absurd fits
  stripe_kind-HoldsValues map_step rep r d (value p) fits = absurd fits

  stripe_step-HoldsValues : (o : Bool) → HoldsValues (FitsStep o P) (stripe_step o S)
  unfolding stripe_step positions
  stripe_step-HoldsValues false r d c fits = holds r d c fits
  stripe_step-HoldsValues true r d missing fits = refl
  stripe_step-HoldsValues true r d (there c) fits = holds r (d + 1) c fits
  stripe_step-HoldsValues true r d (value p) fits = absurd fits
  stripe_step-HoldsValues true r d (entries cs) fits = absurd fits

pub stripe-HoldsValues : (sts : List PathStep) → HoldsValues (Fits sts) (stripe sts)
unfolding stripe
stripe-HoldsValues [] r d c fits = absurd fits
stripe-HoldsValues (st ∷ sts) r d c fits =
    stripe_step-HoldsValues (FitsKind st.kind (Fits sts))
      (stripe_kind st.kind (stripe sts) st.rep_level)
      (stripe_kind-HoldsValues (Fits sts) (stripe sts) (stripe-HoldsValues sts) st.kind
        st.rep_level)
      st.optional r d c fits
