-- ===== src/Auth.antt =====
-- backend/internal/auth/service.go: the tokens of a session. Times are nanoseconds. The service of
-- accounts, which the source takes as an interface, and package golang-jwt are parameters.
pub mod Tokens
use trabalho_radio_px.Prelude.{
  ℕ, ◌+◌, ◌*◌, String, ◌≡◌, Bool, true, false, not, Option, none, some, ltb, if◌then◌else◌, ◌==◌,
}

pub record AuthUser : Type 0 where
  pub id : String
  pub email : String
  pub name : String
  pub provider : String

pub record Claims : Type 0 where
  pub user_id : String
  pub email : String
  pub name : String
  pub provider : String
  pub token_type : String
  pub expires_at : ℕ
  pub issued_at : ℕ
  pub subject : String

pub record TokenPair : Type 0 where
  pub access_token : String
  pub refresh_token : String
  pub expires_at : ℕ

-- `user_error` stands for an error of the service of accounts, `signing_error` for one of the
-- package.
pub data AuthError : Type 0 where
  invalid_token token_expired invalid_credentials user_error signing_error : AuthError

pub data Result (A : Type 0) : Type 0 where
  ok : A → Result A
  err : AuthError → Result A

-- The claims of a token with its `Valid`, or an error that is ErrTokenExpired or not.
pub data Parsed : Type 0 where
  parsed : Claims → Bool → Parsed
  expired unparsed : Parsed

-- What a token that the package signed with HS256 parses to: the key function must give the key
-- that it was signed with, and a token lives until its expiry.
abbrev pub parse_signed : Option String → String → ℕ → Claims → Parsed
parse_signed none secret now c = unparsed
parse_signed (some key) secret now c =
    if not (key == secret)
    then unparsed
    else if ltb now c.expires_at
    then parsed c true
    else expired

pub record Jwt : Type 0 where
  -- `NewNumericDate`
  pub numeric_date : ℕ → ℕ
  -- `NewWithClaims(SigningMethodHS256, claims).SignedString(key)`
  pub signed_string : String → Claims → Option String
  -- `ParseWithClaims` at a time, with a key function that reads the token's algorithm
  pub parse_with_claims : ℕ → (String → Option String) → String → Parsed
  pub parse-signed :
      (now : ℕ) (key : String → Option String) (secret token : String) (c : Claims)
      → signed_string secret c ≡ some token
      → parse_with_claims now key token ≡ parse_signed (key "HS256") secret now c

-- The service of accounts, `none` for an error.
pub record UserService : Type 0 where
  pub authenticate : String → String → Option AuthUser
  pub get_user : String → Option AuthUser

abbrev pub token_expiry : ℕ
token_expiry = 24 * 3600000000000

abbrev pub refresh_expiry : ℕ
refresh_expiry = 7 * 24 * 3600000000000

module _ (j : Jwt) where
  open j use {numeric_date, signed_string, parse_with_claims}

  -- The function that gives ParseWithClaims the key.
  abbrev pub key_of : String → String → Option String
  key_of secret alg = if not (alg == "HS256") then none else some secret

  unfoldable pub validate_token : String → ℕ → String → Result Claims
  validate_token secret now token = elim (parse_with_claims now (key_of secret) token) [
    | expired ↦ err token_expired
    | unparsed ↦ err invalid_token
    | parsed c valid ↦ if not valid then err invalid_token else ok c
  ]

  unfoldable pub validate_access_token : String → ℕ → String → Result String
  validate_access_token secret now token = elim (validate_token secret now token) [
    | err e ↦ err e
    | ok c ↦ if not (c.token_type == "access") then err invalid_token else ok c.user_id
  ]

  abbrev pub access_claims : ℕ → AuthUser → Claims
  access_claims now u = record {
    user_id = u.id;
    email = u.email;
    name = u.name;
    provider = u.provider;
    token_type = "access";
    expires_at = numeric_date (now + token_expiry);
    issued_at = numeric_date now;
    subject = u.id;
  }

  abbrev pub refresh_claims : ℕ → AuthUser → Claims
  refresh_claims now u = record {
    user_id = u.id;
    email = "";
    name = "";
    provider = "";
    token_type = "refresh";
    expires_at = numeric_date (now + refresh_expiry);
    issued_at = numeric_date now;
    subject = u.id;
  }

  unfoldable pub generate_token_pair : String → ℕ → AuthUser → Result TokenPair
  generate_token_pair secret now u = elim (signed_string secret (access_claims now u)) [
    | none ↦ err signing_error
    | some access ↦ elim (signed_string secret (refresh_claims now u)) [
      | none ↦ err signing_error
      | some refresh ↦ ok (record {
        access_token = access;
        refresh_token = refresh;
        expires_at = now + token_expiry;
      })
    ]
  ]

  unfoldable pub login : UserService → String → ℕ → String → String → Result TokenPair
  unfolding generate_token_pair
  login users secret now email password = elim (users.authenticate email password) [
    | none ↦ err invalid_credentials
    | some u ↦ generate_token_pair secret now u
  ]

  unfoldable pub refresh_token : UserService → String → ℕ → String → Result TokenPair
  unfolding generate_token_pair validate_token
  refresh_token users secret now token = elim (validate_token secret now token) [
    | err e ↦ err e
    | ok c ↦
        if not (c.token_type == "refresh")
        then err invalid_token
        else elim (users.get_user c.user_id) [
          | none ↦ err user_error
          | some u ↦ generate_token_pair secret now (record u { provider = "" })
        ]
  ]

  unfoldable pub get_user_id_from_token : String → ℕ → String → Result String
  get_user_id_from_token secret now token = elim (validate_token secret now token) [
    | err e ↦ err e
    | ok c ↦ ok c.user_id
  ]
