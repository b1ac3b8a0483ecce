-- ===== src/Match/Delivery.antt =====
-- services/match_app/delivery/http/handler.go: a player's request to wait for a match.
pub mod Laws
use brain_blitz.Prelude.{ℕ, String, true, false, Option, none, some, List, str_eq, if◌then◌else◌}
use brain_blitz.Errors.{GoError, status_ok, status_bad_request}
use brain_blitz.Match.Entity.{AddToWaitingListRequest}
use brain_blitz.Match.Service.{Environment, Config, add_to_waiting_list}
use brain_blitz.Http.{
  Content, content, plain, Response, Bind, Header, get_header, error_answer,
  message_missing_x_user_id, invalid_category,
}

module _ {S Bytes : Type 0} (env : Environment S Bytes) where
  -- What the handler does with the service's answer, whose value is the timeout.
  abbrev pub waiting_answer : ℕ × Option GoError × S → Response ℕ × S
  waiting_answer (res, some e, s) = (error_answer e, s)
  waiting_answer (res, none, s) = (record { status = status_ok; body = content res }, s)

  -- The id is set before the body is bound to the same struct.
  unfoldable pub http_add_to_waiting_list :
      Config → Header → Bind AddToWaitingListRequest → S → Response ℕ × S
  unfolding add_to_waiting_list
  http_add_to_waiting_list config header bind s =
      let id = get_header header "X-User-ID" in
      let (req, failed) = bind (record { category = ""; user_id = id }) in
      if str_eq id ""
      then (record { status = status_bad_request; body = plain message_missing_x_user_id }, s)
      else elim failed [
        | some e ↦ (record { status = status_bad_request; body = plain invalid_category }, s)
        | none ↦ waiting_answer (add_to_waiting_list env config req s)
      ]
