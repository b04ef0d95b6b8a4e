-- ===== src/Middleware/Tests.antt =====
-- internal/server/middleware: tests on handlers that panic, and an instance of the theorem.
use alertmanager_webhook_rel.Base.{[], refl, str, true, ◌∷◌, ◌≡◌}
use alertmanager_webhook_rel.Middleware.{
  logging, chunk, error_text, flush_header, header, perform, perform_all, recovery, recovered,
  served, chain, handler_of, flushed_unless_panic, reset_status, write, write_header, writes,
  writes_header,
}
use alertmanager_webhook_rel.Middleware.Outcome.{IsAnswered, served-IsAnswered}

-- A header without a body does not stand in the way of the 500.
panic_early : (served (writes_header 204 ∷ []) true 22).0.out ≡ header 500 ∷ chunk error_text ∷ []
unfolding served chain handler_of logging recovery recovered flushed_unless_panic perform_all
    perform write write_header flush_header reset_status
panic_early = refl

-- After a part of the body, the status stays and the error text follows.
panic_late :
    (served (writes (str "ok") 2 ∷ writes_header 404 ∷ []) true 22).0.out
    ≡ header 200 ∷ chunk (str "ok") ∷ chunk error_text ∷ []
unfolding served chain handler_of logging recovery recovered flushed_unless_panic perform_all
    perform write write_header flush_header reset_status
panic_late = refl

served-IsAnswered_example : IsAnswered 500 (served (writes_header 204 ∷ []) true 22)
served-IsAnswered_example = served-IsAnswered (writes_header 204 ∷ []) true 22
