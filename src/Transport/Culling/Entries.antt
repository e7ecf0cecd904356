-- ===== src/Transport/Culling/Entries.antt =====
-- The entries of a table after its stale keys were culled.
use reticulum.Prelude.{
  ◌≡◌, refl, inl, inr, Bytes, bytes_eq, bytes_eq_sound, ap, ◌∙◌, Option-cases, List, [], ◌∷◌, Bool,
  Bool-cases, false, none, some, if◌then◌else◌,
}
use reticulum.Transport.Paths.{find}
use reticulum.Transport.Culling.{cull}

module _ {V : Type 0} (is_stale : V → Bool) where
  cull_known :
      (k : Bytes) (v current : V) (all table : List (Bytes × V))
      → find k all ≡ some current
      → cull is_stale all ((k, v) ∷ table)
        ≡ (if is_stale current then cull is_stale all table else (k, v) ∷ cull is_stale all table)
  unfolding cull
  cull_known k v current all table h = rw (cull, h) refl

  cull_unknown :
      (k : Bytes) (v : V) (all table : List (Bytes × V))
      → find k all ≡ none
      → cull is_stale all ((k, v) ∷ table) ≡ cull is_stale all table
  unfolding cull
  cull_unknown k v all table h = rw (cull, h) refl

  find-skip :
      (d k : Bytes) (v current : V) (all table : List (Bytes × V))
      → bytes_eq k d ≡ false
      → find k all ≡ some current
      → find d (cull is_stale all ((k, v) ∷ table)) ≡ find d (cull is_stale all table)
  unfolding find
  find-skip d k v current all table other h = elim (Bool-cases (is_stale current)) [
    | inl stale ↦ rw (cull_known k v current all table h, stale) refl
    | inr fresh ↦ rw (cull_known k v current all table h, fresh) (rw (find, other) refl)
  ]

  find-other :
      (d k : Bytes) (v : V) (all table : List (Bytes × V))
      → bytes_eq k d ≡ false
      → find d (cull is_stale all ((k, v) ∷ table)) ≡ find d (cull is_stale all table)
  find-other d k v all table other = elim (Option-cases (find k all)) [
    | inl unknown ↦ ap (find d) (cull_unknown k v all table unknown)
    | inr (current, h) ↦ find-skip d k v current all table other h
  ]

  find-cull :
      (d : Bytes) (e : V) (all table : List (Bytes × V))
      → find d all ≡ some e
      → find d (cull is_stale all table) ≡ (if is_stale e then none else find d table)
  unfolding find cull
  find-cull d e all [] h = elim (Bool-cases (is_stale e)) [
    | inl stale ↦ rw stale refl
    | inr fresh ↦ rw fresh refl
  ]
  find-cull d e all ((k, v) ∷ table) h = elim (Bool-cases (bytes_eq k d)) [
    | inl same ↦
        let known : find k all ≡ some e = rw (bytes_eq_sound k d same) h in
        elim (Bool-cases (is_stale e)) [
          | inl stale ↦
              rw (cull_known k v e all table known, stale) (rw stale at (find-cull d e all table h))
          | inr fresh ↦ rw (cull_known k v e all table known, fresh) (rw (find, same) refl)
        ]
    | inr other ↦ rw other (find-other d k v all table other ∙ find-cull d e all table h)
  ]

  -- An entry stays as it is, or its key is gone.
  pub find-cull_self :
      (d : Bytes) (e : V) (table : List (Bytes × V))
      → find d table ≡ some e
      → find d (cull is_stale table table) ≡ (if is_stale e then none else some e)
  find-cull_self d e table h = rw h at (find-cull d e table table h)
