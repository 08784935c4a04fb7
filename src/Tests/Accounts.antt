-- ===== src/Tests/Accounts.antt =====
-- Inputs for the theorems about backend/internal/user and backend/internal/auth.
use trabalho_radio_px.Prelude.{
  ℕ, ◌+◌, String, ◌≡◌, ◌≢◌, Bool, true, false, not, ◌&&◌, nat_eq, Bool-cases, inl, inr, Option,
  none, some, List, [], ◌∷◌, ltb, if◌then◌else◌, refl, ◌==◌, ap, eq_iff, ◌∙◌, sym, subst, arith,
}
use trabalho_radio_px.Prelude.Map.{Map, find, put}
use trabalho_radio_px.Prelude.Sets.{nat_eq_iff}
use trabalho_radio_px.User.{User, CreateUserRequest, UpdateUserRequest, user_already_exists, ok}
use trabalho_radio_px.User.Store.{
  has_email, other_has_email, create, update, get_by_email, with_email,
}
use trabalho_radio_px.User.Service.{
  Accounts, local_user, valid_email, create_user, authenticate, set_user_active, change,
  update_user, edited,
}
use trabalho_radio_px.User.Service.Access.{
  create_user-authenticate, set_user_active-authenticate, update_user_duplicate,
}
use trabalho_radio_px.User.Service.History.{Call, create_call, after, after_all, after_all-email}
use trabalho_radio_px.Auth
use trabalho_radio_px.Auth.{
  AuthUser, Claims, TokenPair, Jwt, UserService, Parsed, parse_signed, unparsed, invalid_token,
  token_expired, token_expiry, refresh_expiry, validate_access_token, login, refresh_token,
  generate_token_pair, access_claims, refresh_claims,
}
use trabalho_radio_px.Auth.Tokens.{login-validate_access_token}

apart : (a b : String) → (a == b) ≡ false → a ≢ b
apart a b n h = let e = (eq_iff a b).1 h in absurd_bool (sym e ∙ n)
  where
    absurd_bool : true ≡ false → ⊥
    absurd_bool h = cc

-- E-mails that are normal as they stand, and passwords kept as they are.
abbrev pub accounts : Accounts
accounts = record {
  trim_space = λ s. s;
  to_lower = λ s. s;
  parse_address = λ s. some s;
  generate_from_password = λ salt password. some password;
  compare_hash_and_password = λ hash password. hash == password;
  compare-generate =
      λ salt password hash h. let p : hash ≡ password = cc in (eq_iff hash password).1 p;
}

abbrev pub ana : User ℕ
ana = local_user accounts "u1" 1 "ana@px" "12345678" "Ana"

abbrev pub bia : User ℕ
bia = local_user accounts "u2" 2 "bia@px" "12345678" "Bia"

abbrev pub users : Map (User ℕ)
users = ("u1", ana) ∷ ("u2", bia) ∷ []

abbrev pub sign_up : CreateUserRequest
sign_up = record { email = "ana@px"; password = "12345678"; name = "Ana" }

create_user-authenticate_example :
    authenticate accounts
      (create_user accounts {Float = ℕ} "u1" "" 1 [] sign_up).0
      "ana@px"
      "12345678"
    ≡ ok ana
unfolding create_user valid_email create has_email
create_user-authenticate_example = create_user-authenticate accounts "u1" "" 1 [] sign_up ana refl

set_user_active-authenticate_example : bia.id ≢ "u1"
unfolding has_email find set_user_active change update other_has_email put authenticate get_by_email
    with_email
set_user_active-authenticate_example =
    set_user_active-authenticate accounts 9 users "u2" "u1" "bia@px" "12345678" bia
      (refl, refl, refl, (refl, refl, refl, tt)) refl refl

abbrev pub take_over : UpdateUserRequest
take_over = record { name = ""; email = "bia@px"; avatar = "" }

update_user_duplicate_example :
    ((update_user accounts 9 users "u1" take_over).1 ≡ some user_already_exists)
    × (find (update_user accounts 9 users "u1" take_over).0 "u1"
        ≡ some (edited accounts 9 take_over ana))
    × ((edited accounts 9 take_over ana).email ≡ bia.email)
    × (find (update_user accounts 9 users "u1" take_over).0 "u2" ≡ some bia)
unfolding has_email find
update_user_duplicate_example =
    update_user_duplicate accounts 9 users "u1" "u2" ana bia take_over
      (refl, refl, refl, (refl, refl, refl, tt)) (apart "u1" "u2" refl) refl refl refl refl

abbrev calls : List (Call ℕ)
calls = create_call "u1" "" 1 sign_up ∷ create_call "u2" "" 2 sign_up ∷ []

abbrev ana_id : String
ana_id = "u1"

after_all-email_example : ana_id ≡ ana_id
unfolding after_all after create_user valid_email create has_email find put
after_all-email_example = after_all-email accounts calls ana_id ana_id ana ana refl refl refl

-- One session, which begins at time 100 and whose secret is "k".
abbrev access : Claims
access = record {
  user_id = "u1";
  email = "ana@px";
  name = "Ana";
  provider = "local";
  token_type = "access";
  expires_at = 100 + token_expiry;
  issued_at = 100;
  subject = "u1";
}

abbrev refresh : Claims
refresh = record {
  user_id = "u1";
  email = "";
  name = "";
  provider = "";
  token_type = "refresh";
  expires_at = 100 + refresh_expiry;
  issued_at = 100;
  subject = "u1";
}

abbrev same_claims : Claims → Claims → Bool
same_claims c d =
    (c.user_id == d.user_id)
    && (c.email == d.email)
    && (c.name == d.name)
    && (c.provider == d.provider)
    && (c.token_type == d.token_type)
    && nat_eq c.expires_at d.expires_at
    && nat_eq c.issued_at d.issued_at
    && (c.subject == d.subject)

and_true : (a b : Bool) → (a && b) ≡ true → (a ≡ true) × (b ≡ true)
and_true a b h = ground arith

same_claims-≡ : (c d : Claims) → same_claims c d ≡ true → c ≡ d
same_claims-≡ c d h =
    let (h7, a8) = and_true _ _ h in
    let (h6, a7) = and_true _ _ h7 in
    let (h5, a6) = and_true _ _ h6 in
    let (h4, a5) = and_true _ _ h5 in
    let (h3, a4) = and_true _ _ h4 in
    let (h2, a3) = and_true _ _ h3 in
    let (a1, a2) = and_true _ _ h2 in
    let p1 = (eq_iff c.user_id d.user_id).0 a1 in
    let p2 = (eq_iff c.email d.email).0 a2 in
    let p3 = (eq_iff c.name d.name).0 a3 in
    let p4 = (eq_iff c.provider d.provider).0 a4 in
    let p5 = (eq_iff c.token_type d.token_type).0 a5 in
    let p6 = (nat_eq_iff c.expires_at d.expires_at).0 a6 in
    let p7 = (nat_eq_iff c.issued_at d.issued_at).0 a7 in
    let p8 = (eq_iff c.subject d.subject).0 a8 in cc

-- The package, for this session's claims alone.
abbrev sign : String → Claims → Option String
sign secret c =
    if not (secret == "k")
    then none
    else if same_claims c access
    then some "access"
    else if same_claims c refresh
    then some "refresh"
    else none

abbrev parse : ℕ → (String → Option String) → String → Parsed
parse now key token =
    if token == "access"
    then parse_signed (key "HS256") "k" now access
    else if token == "refresh"
    then parse_signed (key "HS256") "k" now refresh
    else unparsed

signed_as :
    (now : ℕ) (key : String → Option String) (secret : String) (c d : Claims)
    → secret ≡ "k"
    → c ≡ d
    → parse_signed (key "HS256") "k" now d ≡ parse_signed (key "HS256") secret now c
signed_as now key secret c d k e =
    ap (λ s. parse_signed (key "HS256") s now d) (sym k)
    ∙ ap (parse_signed (key "HS256") secret now) (sym e)

pub parse-sign :
    (now : ℕ) (key : String → Option String) (secret token : String) (c : Claims)
    → sign secret c ≡ some token
    → parse now key token ≡ parse_signed (key "HS256") secret now c
parse-sign now key secret token c = elim (Bool-cases (secret == "k")) [
  | inr e ↦ rw e (λ h. cc)
  | inl e ↦ elim (Bool-cases (same_claims c access)) [
    | inl a ↦
        rw (e, a)
          (λ h.
            let p : "access" ≡ token = cc in
            subst (λ t. parse now key t ≡ parse_signed (key "HS256") secret now c) p
              (signed_as now key secret c access ((eq_iff secret "k").0 e)
                (same_claims-≡ c access a)))
    | inr a ↦ elim (Bool-cases (same_claims c refresh)) [
      | inl r ↦
          rw (e, a, r)
            (λ h.
              let p : "refresh" ≡ token = cc in
              subst (λ t. parse now key t ≡ parse_signed (key "HS256") secret now c) p
                (signed_as now key secret c refresh ((eq_iff secret "k").0 e)
                  (same_claims-≡ c refresh r)))
      | inr r ↦ rw (e, a, r) (λ h. cc)
    ]
  ]
]

abbrev pub tokens : Jwt
tokens = record {
  numeric_date = λ t. t;
  signed_string = sign;
  parse_with_claims = parse;
  parse-signed = parse-sign;
}

abbrev pub ana_login : AuthUser
ana_login = record { id = "u1"; email = "ana@px"; name = "Ana"; provider = "local" }

abbrev directory : UserService
directory = record {
  authenticate = λ email password. some ana_login;
  get_user = λ id. some ana_login;
}

abbrev pub session : TokenPair
session = record {
  access_token = "access";
  refresh_token = "refresh";
  expires_at = 100 + token_expiry;
}

login-validate_access_token_example :
    (validate_access_token tokens "k" 200 "access"
      ≡ (if ltb 200 (100 + token_expiry) then Auth.ok "u1" else Auth.err token_expired))
    × (validate_access_token tokens "k" 200 "refresh" ≡ (
        if ltb 200 (100 + refresh_expiry) then Auth.err invalid_token else Auth.err token_expired))
    × (refresh_token tokens directory "k" 200 "access"
        ≡ (if ltb 200 (100 + token_expiry) then Auth.err invalid_token else Auth.err token_expired))
unfolding login generate_token_pair
login-validate_access_token_example =
    login-validate_access_token tokens directory "k" "ana@px" "12345678" 100 200 ana_login session
      refl refl
