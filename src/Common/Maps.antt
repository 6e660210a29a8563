-- ===== src/Common/Maps.antt =====
-- Go maps with string keys, as functions. An absent key is `none`.
use Prim.Native.String.{String}
use mathlib.Core.Option.{Option, none, some}
use lab_remote_go.Common.Tests.{if◌then◌else◌}
pub use text.Mathlib.Text.{◌==◌ as str_eq}
pub use text.Mathlib.TextEquality.{eq_iff as str_eq_iff}
pub use text.Mathlib.TextPositions.{eq_refl as str_eq_refl}

module _ {ℓ} where
  abbrev pub GoMap : Type ℓ → Type ℓ
  GoMap V = String → Option V

  abbrev pub make_map : {V : Type ℓ} → GoMap V
  make_map key = none

  abbrev pub set_key : {V : Type ℓ} → String → V → GoMap V → GoMap V
  set_key key value m = λ k. if str_eq key k then some value else m k

  abbrev pub delete_key : {V : Type ℓ} → String → GoMap V → GoMap V
  delete_key key m = λ k. if str_eq key k then none else m k
