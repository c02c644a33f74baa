-- ===== src/Publishing/Tables/Laws.antt =====
-- Laws of the row operations: which version an entity has, and which record a log has of it.
use openedx_core.Common.{
  ℕ, ◌≡◌, refl, Bool, ◌||◌, Option, none, some, List, [], ◌∷◌, ◌++◌, ◌==◌, if◌then◌else◌, find, any,
  update_where, arith,
}
use openedx_core.Publishing.Models.{BranchRow}
use openedx_core.Publishing.Tables.{find_row, version_of, save_row}

pub version_of-save_row :
    (j : ℕ) (row : BranchRow) (rows : List BranchRow)
    → version_of j (save_row row rows)
      ≡ (if row.entity == j then row.version else version_of j rows)
version_of-save_row j row [] = ground arith
version_of-save_row j row (r ∷ rows) = ground (arith, version_of-save_row j row rows)

-- A change of the columns other than the key and the version leaves every version.
pub version_of-update_where :
    (j : ℕ) (p : BranchRow → Bool) (v : Option ℕ) (rows : List BranchRow)
    → version_of j (update_where p (λ r. record r { log_record = v }) rows) ≡ version_of j rows
version_of-update_where j p v [] = refl
version_of-update_where j p v (r ∷ rows) = ground (arith, version_of-update_where j p v rows)

pub find-append {ℓ} :
    {A : Type ℓ} (p : A → Bool) (xs ys : List A) {x : A}
    → find p xs ≡ some x
    → find p (xs ++ ys) ≡ some x
find-append p [] ys h = cc
find-append p (y ∷ xs) ys {x} h = ground (arith, find-append p xs ys {x = x})

pub find-append_none {ℓ} :
    {A : Type ℓ} (p : A → Bool) (xs ys : List A) → find p xs ≡ none → find p (xs ++ ys) ≡ find p ys
find-append_none p [] ys h = refl
find-append_none p (y ∷ xs) ys h = ground (arith, find-append_none p xs ys)

pub any-append {ℓ} :
    {A : Type ℓ} (p : A → Bool) (xs ys : List A) → any p (xs ++ ys) ≡ (any p xs || any p ys)
any-append p [] ys = refl
any-append p (x ∷ xs) ys = ground (arith, any-append p xs ys)

pub find_row-some :
    (e : ℕ) (rows : List BranchRow) {r : BranchRow}
    → find_row e rows ≡ some r
    → (r.entity ≡ e) × (version_of e rows ≡ r.version)
find_row-some e [] h = cc
find_row-some e (x ∷ rows) {r} h = ground (arith, find_row-some e rows {r = r})

pub find_row-none :
    (e : ℕ) (rows : List BranchRow) → find_row e rows ≡ none → version_of e rows ≡ none
find_row-none e [] h = refl
find_row-none e (x ∷ rows) h = ground (arith, find_row-none e rows)
