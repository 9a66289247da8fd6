-- ===== src/Devices/SecretMap.antt =====
-- The secrets of devices by id, `deviceSecretsById` of web/src/pages/Admin/DeviceManagement.tsx, as
-- an association list. The order of the keys is not read.
use linkflow_v.Prelude.{
  String, Option, none, some, List, [], ◌∷◌, ◌==◌, ◌≡◌, arith, eq_iff, not, keep, if◌then◌else◌,
}

pub record Secret : Type 0 where
  pub id : String
  pub secret : String

abbrev pub Secrets : Type 0
Secrets = List Secret

abbrev pub secret_of : String → Secrets → Option String
secret_of id [] = none
secret_of id (s ∷ secrets) =
    let rest = secret_of id secrets in if s.id == id then some s.secret else rest

-- `delete next[id]`.
abbrev pub delete_secret : String → Secrets → Secrets
delete_secret id secrets = keep (λ s. not (s.id == id)) secrets

-- `{ ...current, [id]: secret }`.
abbrev pub put_secret : String → String → Secrets → Secrets
put_secret id secret secrets = record { id = id; secret = secret } ∷ delete_secret id secrets

pub secret_of-delete_secret :
    (id j : String) (secrets : Secrets)
    → secret_of j (delete_secret id secrets) ≡ (if id == j then none else secret_of j secrets)
secret_of-delete_secret id j [] = ground arith
secret_of-delete_secret id j (s ∷ secrets) =
    ground (arith, eq_iff s.id id, eq_iff s.id j, eq_iff id j, secret_of-delete_secret id j secrets)
