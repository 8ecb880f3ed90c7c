-- ===== src/Config/Ids.antt =====
-- New properties get new numbers, under which they are found.
use libswish.Config.{Property, property_init, get_builtin_id, get_id}
use libswish.Config.Whole.{Config, next_int, property_new}
use libswish.Hash.{hash_add}
use libswish.Hash.Merge.{Puts, hash_add-Puts, Puts-same, Puts-other, Puts-cases}
use libswish.LibXml.{LibXml, IsLibXml}
use libswish.Numbers.{ℤ, int_to_string, string_to_int}
use libswish.Numbers.Decimal.{string_to_int-int_to_string}
use libswish.Prelude.{
  ℕ, ◌+◌, ◌<◌, ◌≤◌, ◌≡◌, ◌≢◌, refl, ◌∙◌, sym, ap, Option, none, some, Bytes, ok, ◌>>=◌, Returns,
  arith, inl, inr, Option-cases,
}

-- The numbers in use are those up to `max_prop_id`, and a property has the number under which the
-- table of numbers has its name.
pub record IsNumbered (x : LibXml) (config : Config x) (max : ℕ) : Type 0 where
  pub max_is : config.flags.max_prop_id ≡ ℤ.pos max
  pub used :
      (k name : Bytes)
      → x.lookup Bytes config.flags.prop_ids k ≡ some name
      → (n : ℕ) × (n ≤ max) × (k ≡ int_to_string (ℤ.pos n))
  pub agrees :
      (name : Bytes) (p : Property)
      → x.lookup Property config.properties name ≡ some p
      → x.lookup Bytes config.flags.prop_ids (int_to_string p.id) ≡ some name

same_number :
    (m n : ℕ)
    → m < 2147483648
    → n < 2147483648
    → int_to_string (ℤ.pos m) ≡ int_to_string (ℤ.pos n)
    → m ≡ n
same_number m n hm hn e =
    let read =
      sym (string_to_int-int_to_string (ℤ.pos m) hm)
      ∙ ap string_to_int e
      ∙ string_to_int-int_to_string (ℤ.pos n) hn in
    ground (arith, read)

same_id : (p q : Property) → some p ≡ some q → p.id ≡ q.id
same_id p q e = ground (arith, e)

taken_is_not_none : (o : Option Bytes) (v : Bytes) → o ≡ some v → o ≢ none
taken_is_not_none o v e n = absurd cc

module _ (x : LibXml) (laws : IsLibXml x) where
  fresh :
      (config : Config x) (max : ℕ)
      → IsNumbered x config max
      → max + 1 < 2147483648
      → x.lookup Bytes config.flags.prop_ids (int_to_string (ℤ.pos (max + 1))) ≡ none
  fresh config max v small =
      elim (Option-cases (x.lookup Bytes config.flags.prop_ids (int_to_string (ℤ.pos (max + 1))))) [
        | inl absent ↦ absent
        | inr (name, present) ↦
            let (n, le, e) = v.used _ name present in
            absurd (omega (arith, same_number (max + 1) n small (omega arith) e, le))
      ]

  used_after :
      (config : Config x) (max : ℕ) (ids : x.Table Bytes) (name k nm : Bytes)
      → IsNumbered x config max
      → Puts x laws config.flags.prop_ids (int_to_string (ℤ.pos (max + 1))) (some name) ids
      → x.lookup Bytes ids k ≡ some nm
      → (n : ℕ) × (n ≤ max + 1) × (k ≡ int_to_string (ℤ.pos n))
  used_after config max ids name k nm v reads e =
      elim (Puts-cases x laws config.flags.prop_ids ids (int_to_string (ℤ.pos (max + 1))) k name nm
        reads e) [
          | inl (new, is) ↦ (max + 1, omega arith, new)
          | inr old ↦ let (n, le, is) = v.used k nm old in (n, omega (arith, le), is)
        ]

  agrees_after :
      (config : Config x) (max : ℕ) (ids : x.Table Bytes) (props : x.Table Property)
      → (name nm : Bytes) (p q : Property) → IsNumbered x config max
      → x.lookup Bytes config.flags.prop_ids (int_to_string (ℤ.pos (max + 1))) ≡ none
      → p.id ≡ ℤ.pos (max + 1)
      → Puts x laws config.flags.prop_ids (int_to_string (ℤ.pos (max + 1))) (some name) ids
      → Puts x laws config.properties name (some p) props
      → x.lookup Property props nm ≡ some q
      → x.lookup Bytes ids (int_to_string q.id) ≡ some nm
  agrees_after config max ids props name nm p q v none_yet is_id reads reads' e =
      let key = int_to_string (ℤ.pos (max + 1)) in
      elim (Puts-cases x laws config.properties props name nm p q reads' e) [
        | inl (new, is) ↦
            ap (λ i. x.lookup Bytes ids (int_to_string i)) (same_id q p is ∙ is_id)
            ∙ Puts-same x laws config.flags.prop_ids ids key (some name) reads
            ∙ ap some (sym new)
        | inr old ↦
            Puts-other x laws config.flags.prop_ids ids key (int_to_string q.id) (some name) reads
              (λ eq. absurd (
                taken_is_not_none _ nm (v.agrees nm q old)
                  (ap (x.lookup Bytes config.flags.prop_ids) eq ∙ none_yet)))
            ∙ v.agrees nm q old
      ]

  get_id_found :
      (name : Bytes) (t : x.Table Property) (p : Property)
      → get_builtin_id name ≡ ℤ.negsuc 1
      → x.lookup Property t name ≡ some p
      → get_id x name t ≡ ok p.id
  unfolding get_id
  get_id_found name t p plain e = rw (plain, get_id) (rw e refl)

  property_new_steps :
      (name : Bytes) (config : Config x) {id : ℤ} {ids : x.Table Bytes} {props : x.Table Property}
      → next_int config.flags.max_prop_id ≡ id
      → hash_add x config.flags.prop_ids (int_to_string id) name ≡ ok ids
      → hash_add x config.properties name (record (property_init name) { id = id }) ≡ ok props
      → property_new x name config
        ≡ ok (record config {
          properties = props;
          flags = record config.flags { max_prop_id = id; prop_ids = ids };
        })
  unfolding property_new
  property_new_steps name config {id} {ids} {props} n e f =
      rw (n, property_new)
        (ap
            (λ r. r >>= λ t.
              hash_add x config.properties name (record (property_init name) { id = id }) >>= λ u.
              ok (record config {
                properties = u;
                flags = record config.flags { max_prop_id = id; prop_ids = t };
              }))
            e
          ∙ ap
              (λ r. r >>= λ u. ok (record config {
                properties = u;
                flags = record config.flags { max_prop_id = id; prop_ids = ids };
              }))
              f)

  -- A property with a new name gets the next number: the numbers stay distinct and in step with
  -- the names, the name is found with its number unless it is a built-in one, and every other
  -- property is as it was. The number has to stay within 32 bits.
  pub property_new-IsNumbered :
      (name : Bytes) (config : Config x) (max : ℕ)
      → IsNumbered x config max
      → max + 1 < 2147483648
      → x.lookup Property config.properties name ≡ none
      → get_builtin_id name ≡ ℤ.negsuc 1
      → Returns (property_new x name config) (λ r.
        IsNumbered x r (max + 1)
        × (get_id x name r.properties ≡ ok (ℤ.pos (max + 1)))
        × Puts x laws config.properties name
            (some (record (property_init name) { id = ℤ.pos (max + 1) }))
            r.properties)
  unfolding next_int
  property_new-IsNumbered name config max v small absent plain =
      let id = ℤ.pos (max + 1) in
      let key = int_to_string id in
      let p : Property = record (property_init name) { id = id } in
      let none_yet = fresh config max v small in
      let (ids, added, reads) = hash_add-Puts x laws config.flags.prop_ids key name none_yet in
      let (props, put, reads') = hash_add-Puts x laws config.properties name p absent in
      (
        record config {
          properties = props;
          flags = record config.flags { max_prop_id = id; prop_ids = ids };
        },
        property_new_steps name config (rw v.max_is refl) added put,
        (
          record {
            max_is = refl;
            used = λ k nm e. used_after config max ids name k nm v reads e;
            agrees = λ nm q e.
                agrees_after config max ids props name nm p q v none_yet refl reads reads' e;
          },
          get_id_found name props p plain
              (Puts-same x laws config.properties props name (some p) reads'),
          reads',
        ),
      )
