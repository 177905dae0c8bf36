-- ===== src/Database/Access.antt =====
-- When the data of a result can be read.
use stakan.Base.{ℕ, ◌≡◌, ◌↔◌, ◌≢◌, refl, true, false, List, [], err, bad_variant_access}
use stakan.Database.{
  empty, holds, any_cast, any_cast_of, DbResult, monostate, error, contents, get_data, is_success,
  get_error, has_data,
}

module _ {Name : Type 0} (Value : Name → Type 0) (same_type : Discrete Name) where
  any_cast_of_error :
      (t u : Name) (d : Dec (u ≡ t)) (value : Value u)
      → any_cast_of Value same_type t u d value ≢ err bad_variant_access
  unfolding any_cast_of
  any_cast_of_error t u (yes e) value f = cc
  any_cast_of_error t u (no ne) value f = cc

  -- A result with data is a success with no error text, and a result with an error text is no success.
  -- But `IsSuccess` alone does not make `GetData` safe: it throws std::bad_variant_access, for every
  -- type, exactly when `HasData` is false, also on the success of an operation that gives no data.
  pub get_data-has_data :
      (t : Name) (r : DbResult Value)
      → (has_data r ≡ true → (is_success r ≡ true) × (get_error r ≡ []))
        × (is_success r ≡ false ↔ ((text : List ℕ) × (r ≡ error text)))
        × ((get_data Value same_type t r ≡ err bad_variant_access) ↔ (has_data r ≡ false))
  unfolding get_data has_data is_success get_error any_cast
  get_data-has_data t monostate =
      ((λ e. absurd cc), ((λ e. absurd cc), λ (text, e). absurd cc), ((λ e. refl), λ e. refl))
  get_data-has_data t (error text) =
      ((λ e. absurd cc), ((λ e. (text, refl)), λ e. refl), ((λ e. refl), λ e. refl))
  get_data-has_data t (contents empty) = (
    (λ e. (refl, refl)),
    ((λ e. absurd cc), λ (text, e). absurd cc),
    ((λ e. absurd cc), λ e. absurd cc),
  )
  get_data-has_data t (contents (holds u value)) = (
    (λ e. (refl, refl)),
    ((λ e. absurd cc), λ (text, e). absurd cc),
    ((λ e. absurd (any_cast_of_error t u (same_type u t) value e)), λ e. absurd cc),
  )
