-- ===== src/NamedBuffer/Init.antt =====
-- `swish_nb_init`: an empty text for each configured name.
use libswish.LibXml.{find, LibXml, IsLibXml}
use libswish.NamedBuffer.Values.{IsValid, add_name_to_hash-Adds}
use libswish.NamedBuffer.{NamedBuffer, add_names, nb_init, nb_get_value}
use libswish.Prelude.{
  ℕ, ◌≡◌, refl, List, [], ◌∷◌, Option, none, some, Bytes, eq_bytes_iff, arith, Returns,
}

module _ (x : LibXml) (laws : IsLibXml x) where
  abbrev text_or_empty : Option Bytes → Bytes
  text_or_empty none = []
  text_or_empty (some b) = b

  module _ {A : Type 0} where
    add_names-reads :
        (es : List (Bytes × A)) (nb : NamedBuffer x)
        → IsValid x nb
        → Returns (add_names x es nb) (λ r.
          IsValid x r
          × ((j : Bytes)
              → nb_get_value x r j ≡ elim (find j es) [
                | none ↦ nb_get_value x nb j
                | some a ↦ some (text_or_empty (nb_get_value x nb j))
              ]))
    unfolding add_names find
    add_names-reads [] nb v = (nb, refl, (v, λ j. refl))
    add_names-reads (e ∷ es) nb v =
        let (nb', made, adds) = add_name_to_hash-Adds x laws nb e.0 v in
        let (r, run, (valid, reads)) = add_names-reads es nb' adds.valid in
        (
          r,
          ground (arith, made, run),
          (valid, λ j. ground (arith, reads j, adds.values j, eq_bytes_iff j e.0)),
        )

    -- The new set is valid; a name has the empty text in it if it is configured, and none else.
    pub nb_init-reads :
        (confhash : x.Table A)
        → Returns (nb_init x confhash) (λ r.
          IsValid x r
          × ((j : Bytes)
              → nb_get_value x r j
                ≡ elim (x.lookup A confhash j) [ none ↦ none | some a ↦ some [] ]))
    unfolding nb_init nb_get_value
    nb_init-reads confhash =
        let empty : NamedBuffer x = record { hash = x.create ℕ; store = λ p. []; next = 0 } in
        let (r, run, (valid, reads)) = add_names-reads (x.scan A confhash) empty (record {
          below = λ k p e. absurd (ground (arith, laws.lookup-create ℕ k));
          apart = λ j k p e f. absurd (ground (arith, laws.lookup-create ℕ k));
        }) in
        (
          r,
          run,
          (
            valid,
            λ j. ground (arith, reads j, laws.scan_find A confhash j, laws.lookup-create ℕ j),
          ),
        )
