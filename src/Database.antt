-- ===== src/Database.antt =====
-- src/database/IDBConnector.h: `DBResult`, what an operation of the database ends with.
pub mod Access
use mathlib.Core.Path.{subst}
use stakan.Base.{
  ℕ, ◌≡◌, Bool, true, false, not, List, [], Option, none, some, Result, ok, err, ◌>>=◌,
  bad_variant_access, bad_any_cast,
}

-- `std::any`: nothing, or a value of some type. The types are given by their names.
pub data Any {Name : Type 0} (Value : Name → Type 0) : Type 0 where
  empty : Any Value
  holds : (t : Name) → Value t → Any Value

-- `std::variant<std::monostate, std::string, std::any>`
pub data DbResult {Name : Type 0} (Value : Name → Type 0) : Type 0 where
  monostate : DbResult Value
  error : List ℕ → DbResult Value
  contents : Any Value → DbResult Value

-- `std::get<std::any>`
abbrev get_any : {Name : Type 0} {Value : Name → Type 0} → DbResult Value → Result (Any Value)
get_any monostate = err bad_variant_access
get_any (error text) = err bad_variant_access
get_any (contents a) = ok a

-- Names are compared as `typeid` compares types.
module _ {Name : Type 0} (Value : Name → Type 0) (same_type : Discrete Name) where
  -- `std::any_cast` to the type `t` of a value of the type `u`
  unfoldable pub any_cast_of : (t u : Name) → Dec (u ≡ t) → Value u → Result (Value t)
  any_cast_of t u (yes e) value = ok (subst Value e value)
  any_cast_of t u (no ne) value = err bad_any_cast

  unfoldable pub any_cast : (t : Name) → Any Value → Result (Value t)
  unfolding any_cast_of
  any_cast t empty = err bad_any_cast
  any_cast t (holds u value) = any_cast_of t u (same_type u t) value

  -- `DBResult::GetData`
  unfoldable pub get_data : (t : Name) → DbResult Value → Result (Value t)
  unfolding any_cast
  get_data t r = get_any r >>= any_cast t

module _ {Name : Type 0} {Value : Name → Type 0} where
  -- `DBResult::IsSuccess`
  unfoldable pub is_success : DbResult Value → Bool
  is_success monostate = true
  is_success (error text) = false
  is_success (contents a) = true

  -- `DBResult::GetError`
  unfoldable pub get_error : DbResult Value → List ℕ
  get_error monostate = []
  get_error (error text) = text
  get_error (contents a) = []

  -- `DBResult::HasData`
  unfoldable pub has_data : DbResult Value → Bool
  has_data monostate = false
  has_data (error text) = false
  has_data (contents a) = true
