-- ===== src/Http.antt =====
-- What the handlers of the server use of package net/http, and of package strings on paths and headers.
-- A request's body is an argument of the handler that decodes it.
pub mod Text
use trabalho_radio_px.Prelude.{ℕ, String, if◌then◌else◌, ◌==◌}

-- `header` is Header.Get under the canonical names, and `query` is URL.Query().Get: the empty text
-- where there is none.
pub record Request : Type 0 where
  pub method : String
  pub path : String
  pub remote_addr : String
  pub header : String → String
  pub query : String → String

-- What a handler writes: a status with a body, or the status and the error's text of http.Error.
pub data Response (Body : Type 0) : Type 0 where
  respond : ℕ → Body → Response Body
  fail : ℕ → String → Response Body

abbrev pub assign : (String → String) → String → String → String → String
assign get name value other = if name == other then value else get other

-- `r.Header.Set(name, value)`
abbrev pub set_header : Request → String → String → Request
set_header r name value = record r { header = assign r.header name value }

-- `q.Set(name, value)`, written back to the URL
abbrev pub set_query : Request → String → String → Request
set_query r name value = record r { query = assign r.query name value }

-- What a handler does: the state after it, and what it writes.
abbrev pub Handler : Type 0 → Type 0 → Type 0
Handler State Body = Request → State → State × Response Body

-- The same response with the body as a part of a larger type.
abbrev pub map_body : {A B : Type 0} → (A → B) → Response A → Response B
map_body f (respond status body) = respond status (f body)
map_body f (fail status text) = fail status text
