-- ===== src/Api/Sent.antt =====
-- What a batch of messages sends, `insert_batch` of crates/api/src/schema/mutation.rs.
use mathlib.Core.List.{append-nil, append_assoc}
use common_data_layer.Prelude.{
  suc, String, ◌≡◌, refl, sym, ap, ◌∙◌, ◌↔◌, inl, inr, Bool, true, List, [], ◌∷◌, ◌++◌, map, All,
}
use common_data_layer.Exec.{Result, ok, err, Result-cases}
use common_data_layer.Messaging.{Publication}
use common_data_layer.Api.{FieldError}
use common_data_layer.Api.Messages.{
  InputMessage, World, Sender, payload_of, publish, send, send_all, connect_to_data_router,
  insert_batch,
}

module _ (w : World) where
  abbrev pub publication : String → String → Publication
  publication key payload = record {
    topic = w.data_router_topic_or_queue;
    key = key;
    payload = payload;
  }

  -- The messages that were sent, with their payloads, and those that were not; only an error leaves
  -- messages behind.
  pub record IsPrefix (A : Type 0) (key : String) (messages : List InputMessage) (s : Sender)
      (all_sent : Result FieldError A) (s' : Sender) : Type 0 where
    pub sent : List (InputMessage × String)
    pub rest : List InputMessage
    pub split : messages ≡ map (λ d. d.0) sent ++ rest
    pub payloads : All (λ (d : InputMessage × String). payload_of w d.0 ≡ ok d.1) sent
    pub published : s'.published ≡ s.published ++ map (λ d. publication key d.1) sent
    pub complete : ((a : A) × (all_sent ≡ ok a)) ↔ (rest ≡ [])

  nothing_sent :
      (key : String) (message : InputMessage) (messages : List InputMessage) (s : Sender)
      (e : FieldError)
      → IsPrefix (Unit {0}) key (message ∷ messages) s (err e) s
  nothing_sent key message messages s e = record {
    sent = [];
    rest = message ∷ messages;
    split = refl;
    payloads = tt;
    published = sym (append-nil s.published);
    complete = (λ h. cc, λ h. cc);
  }

  send_all-IsPrefix :
      (key : String) (messages : List InputMessage) (s : Sender)
      → IsPrefix
          (Unit {0})
          key
          messages
          s
          (send_all w key messages s).0
          (send_all w key messages s).1
  unfolding send_all send publish
  send_all-IsPrefix key [] s = record {
    sent = [];
    rest = [];
    split = refl;
    payloads = tt;
    published = sym (append-nil s.published);
    complete = (λ h. refl, λ h. (tt, refl));
  }
  send_all-IsPrefix key (message ∷ messages) s = elim (Result-cases (payload_of w message)) [
    | inr (e, h) ↦ rw (h, send_all, send) (nothing_sent key message messages s e)
    | inl (payload, h) ↦
        let p = publication key payload in
        elim (Result-cases (w.publish_message s.published p)) [
          | inr (e, k) ↦ rw (h, k, send_all, send, publish) (nothing_sent key message messages s _)
          | inl (u, k) ↦
              let s' : Sender = record s { published = s.published ++ p ∷ [] } in
              let later = send_all-IsPrefix key messages s' in
              rw (h, k, send_all, send, publish)
                (record {
                  sent = (message, payload) ∷ later.sent;
                  rest = later.rest;
                  split = ap (λ l. message ∷ l) later.split;
                  payloads = (h, later.payloads);
                  published = later.published ∙ append_assoc s.published (p ∷ []) _;
                  complete = later.complete;
                })
        ]
  ]

  -- If the publisher opens, a batch sends a first part of its messages, in their order, all in one new
  -- order group, and sends all of them just when it succeeds: what was sent before an error stays
  -- sent.
  pub insert_batch-IsPrefix :
      (messages : List InputMessage) (s : Sender)
      → connect_to_data_router w ≡ ok tt
      → IsPrefix Bool
          (w.new_v4 s.calls)
          messages
          s
          (insert_batch w messages s).0
          (insert_batch w messages s).1
  unfolding insert_batch
  insert_batch-IsPrefix messages s h =
      let key = w.new_v4 s.calls in
      let s₁ : Sender = record s { calls = suc s.calls } in
      let p = send_all-IsPrefix key messages s₁ in
      rw (h, insert_batch)
        (elim (Result-cases (send_all w key messages s₁).0) [
          | inl (u, e) ↦ rw e (record {
            sent = p.sent;
            rest = p.rest;
            split = p.split;
            payloads = p.payloads;
            published = p.published;
            complete = (λ k. p.complete.0 (u, e), λ k. (true, refl));
          })
          | inr (r, e) ↦ rw e (record {
            sent = p.sent;
            rest = p.rest;
            split = p.split;
            payloads = p.payloads;
            published = p.published;
            complete = (λ k. cc, λ k. absurd (let (a, f) = p.complete.1 k in cc));
          })
        ])
