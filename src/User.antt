-- ===== src/User.antt =====
-- backend/internal/user/model.go: a user's account and the requests about it. Coordinates are of a
-- type of floating-point numbers that is a parameter; times are nanoseconds, and a nil pointer is
-- `none`. The errors are those of backend/internal/user/service.go.
pub mod Store
pub mod Service
pub mod Handler
pub mod Repository
use trabalho_radio_px.Prelude.{ℕ, String, Bool, Option}

pub record User (Float : Type 0) : Type 0 where
  pub id : String
  pub email : String
  pub password : String
  pub name : String
  pub avatar : String
  pub provider : String
  pub provider_id : String
  pub is_active : Bool
  pub is_admin : Bool
  pub last_lat : Option Float
  pub last_lng : Option Float
  pub last_location_at : Option ℕ
  pub created_at : ℕ
  pub updated_at : ℕ

pub record CreateUserRequest : Type 0 where
  pub email : String
  pub password : String
  pub name : String

pub record UpdateUserRequest : Type 0 where
  pub name : String
  pub email : String
  pub avatar : String

-- `password_not_hashed` stands for an error of package bcrypt.
pub data UserError : Type 0 where
  user_not_found user_already_exists invalid_credentials email_required password_required
        invalid_email password_too_short user_inactive admin_self_action password_not_hashed :
      UserError

pub data Result {ℓ} (A : Type ℓ) : Type ℓ where
  ok : A → Result A
  err : UserError → Result A

-- `err.Error()` of the errors above; the text of an error of package bcrypt is left empty.
unfoldable pub error_text : UserError → String
error_text user_not_found = "usuário não encontrado"
error_text user_already_exists = "este e-mail já está cadastrado"
error_text invalid_credentials = "e-mail ou senha inválidos"
error_text email_required = "o e-mail é obrigatório"
error_text password_required = "a senha é obrigatória"
error_text invalid_email = "e-mail inválido"
error_text password_too_short = "a senha deve ter pelo menos 8 caracteres"
error_text user_inactive = "usuário suspenso"
error_text admin_self_action = "você não pode alterar seu próprio status"
error_text password_not_hashed = ""
