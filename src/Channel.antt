-- ===== src/Channel.antt =====
-- backend/internal/channel/model.go: a channel and the requests about it. Coordinates are of a type
-- of floating-point numbers that is a parameter; times are nanoseconds.
pub mod Store
pub mod Service
pub mod Handler
pub mod Repository
use trabalho_radio_px.Prelude.{ℕ, String, Bool}

pub record Channel (Float : Type 0) : Type 0 where
  pub id : String
  pub name : String
  pub description : String
  pub latitude : Float
  pub longitude : Float
  pub max_users : ℕ
  pub user_count : ℕ
  pub is_available : Bool
  pub distance : Float
  pub created_by : String
  pub created_at : ℕ
  pub updated_at : ℕ

pub record CreateChannelRequest (Float : Type 0) : Type 0 where
  pub name : String
  pub description : String
  pub latitude : Float
  pub longitude : Float

pub record UpdateChannelRequest : Type 0 where
  pub name : String
  pub description : String

pub data ChannelError : Type 0 where
  channel_not_found channel_full user_already_in_channel user_not_in_channel only_creator_updates
        only_creator_deletes :
      ChannelError

pub data Result {ℓ} (A : Type ℓ) : Type ℓ where
  ok : A → Result A
  err : ChannelError → Result A
