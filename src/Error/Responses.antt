-- ===== src/Error/Responses.antt =====
-- What a client can learn from an error response.
use arc_admin.Prelude.{string_eq, Option, String, arith, refl, ◌↔◌, ◌≡◌, ◌≤◌}
use arc_admin.Error.{ApiError, internal, status_code, into_response, internal_error_response}

-- An internal error's response does not depend on the error: it is the generic one, so nothing of
-- the cause reaches the client.
pub into_response-internal :
    (trace : Option String) (cause : String)
    → into_response trace (internal cause) ≡ internal_error_response trace
unfolding into_response internal_error_response
into_response-internal trace cause = refl

server_error-cause : (e : ApiError) → 500 ≤ status_code e → (cause : String) × (e ≡ internal cause)
unfolding status_code
server_error-cause (internal m) h = (m, refl)
server_error-cause _ h = absurd (omega arith)

-- A response is a server error (status 500 or above) exactly when the error is an internal one.
pub into_response-server_error :
    (trace : Option String) (e : ApiError)
    → (500 ≤ (into_response trace e).status) ↔ ((cause : String) × (e ≡ internal cause))
unfolding into_response
into_response-server_error trace e = (server_error-cause e, λ c. rw c.1 (omega arith))
