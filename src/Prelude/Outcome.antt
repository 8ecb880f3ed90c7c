-- ===== src/Prelude/Outcome.antt =====
-- `SWISH_CROAK` ends the program: a function that can croak returns a result. Warnings and debug
-- messages change no state and are left out.
use mathlib.Core.Path.{◌≡◌, refl}
use mathlib.Core.Bool.{Bool, true, false}

pub data Croak : Type 0 where
  out_of_memory bad_utf8 empty_token buffer_failed : Croak
  hash_add_failed hash_replace_failed hash_delete_failed : Croak
  not_a_named_buffer no_such_property undefined_metaname unknown_value : Croak
  newline_starts_header bad_header_line bad_number no_uri no_size zero_size not_enough_headers :
      Croak
  unparsed_headers short_read stack_was_empty strdup_of_null unknown_parser bad_uri : Croak
  file_not_opened read_failed : Croak
  -- no croaks: the C code follows NULL, goes out of bounds, frees a block twice or uses one that it
  -- has freed, or the fuel of a loop of the model ran out
  null_pointer out_of_bounds out_of_fuel double_free use_after_free : Croak

-- A run of type `A` ends in a croak or in a value.
pub data Run {ℓ} (A : Type ℓ) : Type ℓ where
  croak : Croak → Run A
  ok : A → Run A

-- A check that croaks with `why` unless it holds.
abbrev pub guard : Bool → Croak → Run (Unit {0})
guard false why = croak why
guard true why = ok tt

infixl 5 ◌>>=◌
abbrev pub ◌>>=◌ {ℓ κ} : {A : Type ℓ} {B : Type κ} → Run A → (A → Run B) → Run B
croak why >>= next = croak why
ok value >>= next = next value

infixl 5 ◌>>◌
abbrev pub ◌>>◌ {ℓ} : {B : Type ℓ} → Run (Unit {0}) → Run B → Run B
first >> second = first >>= λ done. second

-- The run ends normally, in a value that satisfies `P`.
abbrev pub Returns {ℓ κ} : {A : Type ℓ} → Run A → (A → Type κ) → Type (ℓ ⊔ κ)
Returns {A} run P = (value : A) × (run ≡ ok value) × P value

-- The same by cases, which computes where the run does.
abbrev pub Post {ℓ} : {A : Type ℓ} → (A → Type 0) → Run A → Type 0
Post P (ok a) = P a
Post P (croak e) = ⊥

pub Post-Returns {ℓ} : {A : Type ℓ} (P : A → Type 0) (r : Run A) → Post P r → Returns r P
Post-Returns P (ok a) h = (a, refl, h)
Post-Returns P (croak e) h = absurd h

pub >>=-Post {ℓ κ} :
    {A : Type ℓ} {B : Type κ} (P : A → Type 0) (Q : B → Type 0) (m : Run A) (f : A → Run B)
    → Post P m
    → ((a : A) → P a → Post Q (f a))
    → Post Q (m >>= f)
>>=-Post P Q (ok a) f h k = k a h
>>=-Post P Q (croak e) f h k = h

pub >>=-Returns {ℓ κ} :
    {A : Type ℓ} {B : Type κ} (P : A → Type 0) (Q : B → Type 0) (m : Run A) (f : A → Run B)
    → Returns m P
    → ((a : A) → P a → Post Q (f a))
    → Post Q (m >>= f)
>>=-Returns P Q m f (a, e, p) k = rw e (k a p)

pub Returns-Post {ℓ} :
    {A : Type ℓ} (P Q : A → Type 0) (m : Run A) → Returns m P → ((a : A) → P a → Q a) → Post Q m
Returns-Post P Q m (a, e, p) k = rw e (k a p)

pub Post-mono {ℓ} :
    {A : Type ℓ} (P Q : A → Type 0) (m : Run A) → Post P m → ((a : A) → P a → Q a) → Post Q m
Post-mono P Q (ok a) h k = k a h
Post-mono P Q (croak e) h k = h

pub >>=-assoc {ℓ κ μ} :
    {A : Type ℓ} {B : Type κ} {C : Type μ} (m : Run A) (f : A → Run B) (g : B → Run C)
    → (m >>= f >>= g) ≡ (m >>= λ a. f a >>= g)
>>=-assoc (ok a) f g = refl
>>=-assoc (croak e) f g = refl

pub >>=-cong {ℓ κ} :
    {A : Type ℓ} {B : Type κ} (m : Run A) (f g : A → Run B)
    → ((a : A) → f a ≡ g a)
    → (m >>= f) ≡ (m >>= g)
>>=-cong (ok a) f g h = h a
>>=-cong (croak e) f g h = refl

-- A value that the run ends in, if it ends normally, satisfies `P`.
abbrev pub Partial {ℓ κ} : {A : Type ℓ} → (A → Type κ) → Run A → Type κ
Partial P (ok a) = P a
Partial P (croak e) = Unit

pub >>=-Partial {ℓ κ μ ν} :
    {A : Type ℓ} {B : Type κ} (P : A → Type μ) (Q : B → Type ν) (m : Run A) (f : A → Run B)
    → Partial P m
    → ((a : A) → P a → Partial Q (f a))
    → Partial Q (m >>= f)
>>=-Partial P Q (ok a) f h k = k a h
>>=-Partial P Q (croak e) f h k = tt

-- Nothing is known of the first run.
pub >>=-any {ℓ κ ν} :
    {A : Type ℓ} {B : Type κ} (Q : B → Type ν) (m : Run A) (f : A → Run B)
    → ((a : A) → Partial Q (f a))
    → Partial Q (m >>= f)
>>=-any Q (ok a) f k = k a
>>=-any Q (croak e) f k = tt

pub Partial-mono {ℓ κ μ} :
    {A : Type ℓ} (P : A → Type κ) (Q : A → Type μ) (m : Run A)
    → Partial P m
    → ((a : A) → P a → Q a)
    → Partial Q m
Partial-mono P Q (ok a) h k = k a h
Partial-mono P Q (croak e) h k = tt
