-- ===== src/Publish/Answers.antt =====
-- What the publisher's handlers answer.
use moqlivemock_svc.Base.{ℕ, suc, ◌≡◌, Bool, Option, List, [], ◌∷◌, arith}
use moqlivemock_svc.Catalog.Types.{Catalog}
use moqlivemock_svc.Publish.Names.{NamespaceEntry}
use moqlivemock_svc.Publish.Handlers.{
  FetchCall, reject_fetch, accept_fetch, write_catalog, FetchMessage, fetch_handler, Handler,
  SubscribeMessage, SubscribeCall, reject_subscribe, accept_subscribe, publish, subscribe_handler,
  subscribe_moqmi, subscribe_catalog, subscribe_media,
}

-- The calls that answer a request, counted.
abbrev pub fetch_answers : List FetchCall → ℕ
fetch_answers [] = 0
fetch_answers (reject_fetch code reason ∷ calls) = suc (fetch_answers calls)
fetch_answers (accept_fetch ∷ calls) = suc (fetch_answers calls)
fetch_answers (_ ∷ calls) = fetch_answers calls

abbrev pub payloads : List FetchCall → List (List ℕ)
payloads [] = []
payloads (write_catalog payload ∷ calls) = payload ∷ payloads calls
payloads (_ ∷ calls) = payloads calls

abbrev pub subscribe_answers : List SubscribeCall → ℕ
subscribe_answers [] = 0
subscribe_answers (reject_subscribe code reason ∷ calls) = suc (subscribe_answers calls)
subscribe_answers (accept_subscribe largest ∷ calls) = suc (subscribe_answers calls)
subscribe_answers (publish p ∷ calls) = subscribe_answers calls

-- Whatever call fails, a fetch is answered once.
pub fetch_handler-answers :
    (does_not_exist : ℕ) (marshal : Catalog → Option (List ℕ)) (ok : FetchCall → Bool)
    (namespaces : List NamespaceEntry) (m : FetchMessage)
    → fetch_answers (fetch_handler does_not_exist marshal ok namespaces m) ≡ 1
unfolding fetch_handler
fetch_handler-answers code marshal ok namespaces m = ground arith

-- Whatever call fails, a subscription is answered once.
pub subscribe_handler-answers :
    (does_not_exist : ℕ) (ok : SubscribeCall → Bool) (h : Handler) (m : SubscribeMessage)
    → subscribe_answers (subscribe_handler does_not_exist ok h m) ≡ 1
unfolding subscribe_handler subscribe_moqmi subscribe_catalog subscribe_media
subscribe_handler-answers code ok h m = ground arith
