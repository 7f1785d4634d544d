-- ===== src/Core/Licensing.antt =====
-- backend/poi_admin/core/licensing.py: the state of the license and the middleware that enforces it.
-- A time is a number of microseconds.
use poi_hub.Base.{
  ℕ, String, ◌≡◌, refl, Bool, true, false, not, Option, none, some, List, [], ◌∷◌, ◌&&◌, ◌||◌, ◌==◌,
  arith, leb, ltb, is_some, Option-cases, eq_iff, Bool-cases, inl, inr, if◌then◌else◌,
}
use poi_hub.Base.Rows.{any}
use poi_hub.Base.Text.{codes, starts_with}
use poi_hub.Base.Result.{Result, ok, err}

pub record LicenseClaims : Type 0 where
  pub license_id : String
  pub customer_id : String
  pub customer_name : String
  pub installation_id : String
  pub issued_at : ℕ
  pub expires_at : ℕ
  pub max_stores : ℕ
  pub features : List String

pub data LicenseStatus : Type 0 where
  disabled valid missing invalid expired : LicenseStatus

pub record LicenseState : Type 0 where
  pub mode : String
  pub status : LicenseStatus
  pub claims : Option LicenseClaims
  pub error : Option String

unfoldable pub current_status : LicenseState → ℕ → LicenseStatus
current_status s now = elim s.status [
  | valid ↦ elim s.claims [
    | none ↦ valid
    | some c ↦ if leb c.expires_at now then expired else valid
  ]
  | other ↦ other
]

abbrev is_valid : LicenseStatus → Bool
is_valid valid = true
is_valid _ = false

unfoldable pub allows_writes : LicenseState → ℕ → Bool
unfolding current_status
allows_writes s now = not (s.mode == "enforce") || is_valid (current_status s now)

-- `settings`, as far as the license reads it
pub record Settings : Type 0 where
  pub license_mode : String
  pub installation_id : String

abbrev state : String → LicenseStatus → Option LicenseClaims → Option String → LicenseState
state mode status claims error = record {
  mode = mode;
  status = status;
  claims = claims;
  error = error;
}

-- `file` is none if the path is no file, else what reading and validating it gives: the claims, or
-- the name of the exception. `verify` decodes the signature and the key and checks them against the
-- canonical claims; it answers the name of the exception it raises.
unfoldable pub load_license :
    Settings
    → Option (Result String LicenseClaims)
    → (LicenseClaims → Option String)
    → ℕ
    → LicenseState
unfolding current_status
load_license s file verify now =
    if s.license_mode == "off" then state "off" disabled none none else elim file [
      | none ↦ state s.license_mode missing none (some "license_file_missing")
      | some (err e) ↦ state s.license_mode invalid none (some e)
      | some (ok c) ↦
          if not (c.installation_id == s.installation_id)
          then state s.license_mode invalid none (some "ValueError")
          else elim (verify c) [
            | some e ↦ state s.license_mode invalid none (some e)
            | none ↦
                if leb c.expires_at now
                then state s.license_mode expired (some c) none
                else state s.license_mode valid (some c) none
          ]
    ]

pub record Request : Type 0 where
  pub method : String
  pub path : String

-- a response by its status code and the header `X-License-Warning`
pub record Response : Type 0 where
  pub status_code : ℕ
  pub warning : Option LicenseStatus

one_of : String → List String → Bool
one_of s ts = any (λ t. s == t) ts

unfoldable pub is_mutation : Request → Bool
unfolding one_of
is_mutation r = one_of r.method ("POST" ∷ "PUT" ∷ "PATCH" ∷ "DELETE" ∷ [])

unfoldable pub is_exempt : Request → Bool
unfolding starts_with
is_exempt r =
    any (λ t. starts_with (codes t) (codes r.path))
      ("/api/v1/auth/" ∷ "/api/v1/health/" ∷ "/api/v1/license/" ∷ "/api/v1/callbacks/"
        ∷ "/api/v1/invitations/accept" ∷ [])

abbrev warns : LicenseState → LicenseStatus → Bool
warns s valid = false
warns s disabled = false
warns s _ = s.mode == "warn"

abbrev pub warned : LicenseState → LicenseStatus → Response → Response
warned s status r = if warns s status then record r { warning = some status } else r

abbrev pub rejected : Response
rejected = record { status_code = 402; warning = none }

-- `call_next` runs the rest of the application on its state.
unfoldable pub license_enforcement_middleware :
    {W : Type 0} → LicenseState → ℕ → Request → (W → Response × W) → W → Response × W
unfolding current_status is_mutation is_exempt
license_enforcement_middleware s now request call_next w =
    if (s.mode == "enforce")
      && not (is_valid (current_status s now))
      && is_mutation request
      && not (is_exempt request)
    then (rejected, w)
    else (warned s (current_status s now) (call_next w).0, (call_next w).1)

-- a license that is there, readable, made for this installation and rightly signed
abbrev pub genuine :
    Settings
    → Option (Result String LicenseClaims)
    → (LicenseClaims → Option String)
    → Option LicenseClaims
genuine s none verify = none
genuine s (some (err e)) verify = none
genuine s (some (ok c)) verify =
    if (c.installation_id == s.installation_id) && not (is_some (verify c)) then some c else none

abbrev pub expires_after : ℕ → Option LicenseClaims → Bool
expires_after t none = false
expires_after t (some c) = ltb t c.expires_at

-- what is loaded when licenses are on, at one file
loaded-allows_writes :
    (s : Settings) (file : Option (Result String LicenseClaims))
    (verify : LicenseClaims → Option String) (start now : ℕ)
    → (s.license_mode == "off") ≡ false
    → allows_writes (load_license s file verify start) now ≡ (
        not (s.license_mode == "enforce")
        || (expires_after start (genuine s file verify)
            && expires_after now (genuine s file verify)))
unfolding allows_writes load_license current_status
loaded-allows_writes s none verify start now on = rw on (ground arith)
loaded-allows_writes s (some (err e)) verify start now on = rw on (ground arith)
loaded-allows_writes s (some (ok c)) verify start now on =
    rw on (elim (Bool-cases (c.installation_id == s.installation_id)) [
      | inr b ↦ rw b (ground arith)
      | inl b ↦ rw b (elim (Option-cases (verify c)) [
        | inr (x, e) ↦ rw e (ground arith)
        | inl e ↦ rw e (elim (Bool-cases (leb c.expires_at start)) [
          | inl old ↦ rw old (ground arith)
          | inr live ↦ rw live (ground arith)
        ])
      ])
    ])

-- The state that is loaded at `start` allows writes at a later time exactly when licenses are not
-- enforced, or the license is genuine and has not expired at either time.
pub load_license-allows_writes :
    (s : Settings) (file : Option (Result String LicenseClaims))
    (verify : LicenseClaims → Option String) (start now : ℕ)
    → allows_writes (load_license s file verify start) now ≡ (
        not (s.license_mode == "enforce")
        || (expires_after start (genuine s file verify)
            && expires_after now (genuine s file verify)))
unfolding allows_writes load_license current_status
load_license-allows_writes s file verify start now = elim (Bool-cases (s.license_mode == "off")) [
  | inl off ↦ rw (off, load_license) (rw ((eq_iff s.license_mode "off").0 off) refl)
  | inr on ↦ loaded-allows_writes s file verify start now on
]
