-- ===== src/Manifest/Validator/Base.antt =====
-- What the checks of the manifest's validator share.
use winter_service_tmux.Prelude.{Bool, List, [], ◌∷◌, ◌++◌, if◌then◌else◌, ◌==◌, nat_eq, text_eq}
use winter_service_tmux.Prelude.Int.{int_eq}
use winter_service_tmux.Prelude.{pair_eq}
use winter_service_tmux.Prelude.Str.{strip}
use winter_service_tmux.Manifest.Model.{Service}
use winter_service_tmux.Manifest.Violation.{Violation}

abbrev pub report : Bool → Violation → List Violation
report b v = if b then v ∷ [] else []

-- one check of each service, in their order
unfoldable pub for_each {ℓ} : {A : Type ℓ} → (A → List Violation) → List A → List Violation
for_each check [] = []
for_each check (a ∷ more) = check a ++ for_each check more

unfoldable pub is_interactive : Service → Bool
unfolding strip
is_interactive svc = strip svc.cmd == []
