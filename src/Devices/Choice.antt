-- ===== src/Devices/Choice.antt =====
-- The product that is chosen, and the secrets that are kept, in
-- web/src/pages/Admin/DeviceManagement.tsx.
use linkflow_v.Prelude.{
  ℕ, String, Bool, true, false, ◌||◌, Option, none, some, List, [], ◌∷◌, ◌==◌, ◌≡◌, ◌≢◌, refl,
  arith, eq_iff, eq_refl, ap, ◌∙◌, if◌then◌else◌, Bool-cases, inl, inr,
}
use linkflow_v.Services.Call.{PageResult}
use linkflow_v.Services.Products.{Product}
use linkflow_v.Services.Devices.{Device, DeviceCreateResult}
use linkflow_v.Devices.SecretMap.{Secrets, secret_of, secret_of-delete_secret}
use linkflow_v.Devices.{
  Answer, answered, failed, create, DevicePage, has_product, chosen, first_product_id,
  products_loaded,
}
use linkflow_v.Devices.Handlers.{load_devices, keep_secret, handle_submit}

-- Nothing, or a product of the list.
abbrev pub is_choice : String → List Product → Bool
is_choice id products = id == "" || has_product id products

chosen-is_choice :
    (id : String) (products : List Product)
    → is_choice (if chosen id products then id else "") products ≡ true
chosen-is_choice id products = elim (Bool-cases (chosen id products)) [
  | inl p ↦ rw p (ground arith)
  | inr p ↦ rw p refl
]

first_product_id-is_choice :
    (products : List Product) → is_choice (first_product_id products) products ≡ true
first_product_id-is_choice [] = ground (arith, eq_refl "")
first_product_id-is_choice (p ∷ ps) = ground (arith, eq_refl p.id)

chosen_or_first-is_choice :
    (id : String) (products : List Product)
    → is_choice (if chosen id products then id else first_product_id products) products ≡ true
chosen_or_first-is_choice id products = elim (Bool-cases (chosen id products)) [
  | inl p ↦ rw p (ground arith)
  | inr p ↦ rw p (first_product_id-is_choice products)
]

-- The answer with the products of a tenant leaves a filter and a product of the form that are each
-- empty or one of these products, whatever they were before; nothing is said of later events.
pub products_loaded-is_choice :
    (result : PageResult Product) (s : DevicePage)
    → (is_choice (products_loaded false (answered result) s).product_filter result.items ≡ true)
      × (is_choice (products_loaded false (answered result) s).form.product_id result.items ≡ true)
unfolding products_loaded
products_loaded-is_choice result s = (
  chosen-is_choice s.product_filter result.items,
  chosen_or_first-is_choice s.form.product_id result.items,
)

load_devices-secrets :
    (list : Answer (PageResult Device)) (p : ℕ) (q : ℕ) (silent : Bool) (s : DevicePage)
    → (load_devices list p q silent s).device_secrets_by_id ≡ s.device_secrets_by_id
unfolding load_devices
load_devices-secrets (answered r) p q silent s = ground arith
load_devices-secrets (failed e) p q silent s = ground arith

keep_secret-secret_of :
    (id j secret : String) (kept : Option String) (secrets : Secrets)
    → kept ≡ some secret
    → secret ≢ ""
    → secret_of j (keep_secret id kept secrets)
      ≡ (if id == j then some secret else secret_of j secrets)
keep_secret-secret_of id j secret kept secrets h n =
    rw h (ground (arith, eq_iff secret "", secret_of-delete_secret id j secrets))

-- If a device is created with a secret that is not empty, the page has this secret for it, and for
-- every other device what it had.
pub handle_submit-secret_of :
    (list : Answer (PageResult Device)) (result : DeviceCreateResult) (updated : Answer Device)
    (secret id : String) (s : DevicePage)
    → s.tenant_id ≢ ""
    → s.form_mode ≡ some create
    → result.device_secret ≡ some secret
    → secret ≢ ""
    → secret_of id (handle_submit list (answered result) updated s).device_secrets_by_id
      ≡ (if result.device.id == id then some secret else secret_of id s.device_secrets_by_id)
unfolding handle_submit
handle_submit-secret_of list result updated secret id s ht hm hs hn =
    elim (Bool-cases (s.tenant_id == "")) [
      | inl p ↦ absurd (ht ((eq_iff _ _).0 p))
      | inr p ↦
          rw (p, hm)
            (ap (secret_of id) (load_devices-secrets list 1 s.page_size false _)
              ∙ keep_secret-secret_of result.device.id id secret result.device_secret
                  s.device_secrets_by_id hs hn)
    ]

-- The dialog shows the secret of the device with an id.
abbrev pub is_dialog_of : String → Option Device → Bool
is_dialog_of id none = false
is_dialog_of id (some device) = device.id == id
