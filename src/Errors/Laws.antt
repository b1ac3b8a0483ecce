-- ===== src/Errors/Laws.antt =====
-- How the error values of pkg/err_app answer to a client.
use brain_blitz.Prelude.{String, ◌≡◌, refl, Option, some, arith}
use brain_blitz.Errors.{
  AppError, GoError, app, err_message, wrap, normalize, to_http_json, to_grpc_json,
}

-- Wrapping a cause shows the client only the class's message and statuses: two causes give the
-- same answer, over HTTP and over gRPC, whatever operation wrapped them.
pub wrap_hides_cause :
    (op op' : String) (cause cause' : Option GoError) (class : AppError)
    → (to_http_json (app (wrap op cause class)) ≡ to_http_json (app (wrap op' cause' class)))
      × (to_grpc_json (app (wrap op cause class)) ≡ (class.message, class.grpc_status))
      × (to_http_json (app (wrap op cause class))
          ≡ (err_message class.message class.message, class.http_status))
unfolding to_http_json to_grpc_json wrap
wrap_hides_cause op op' cause cause' class = (refl, refl, refl)

-- `Normalize` keeps the statuses that both delivery layers would send: of an application error
-- anywhere on the chain of causes its own, of any other error the internal ones.
pub normalize_keeps_status :
    (err : GoError) {e : AppError}
    → normalize (some err) ≡ some e
    → ((to_http_json err).1 ≡ e.http_status) × ((to_grpc_json err).1 ≡ e.grpc_status)
unfolding normalize to_http_json to_grpc_json
normalize_keeps_status err h = ground arith
