-- ===== src/Endpoint.antt =====
-- crates/wavekat-sip/src/endpoint.rs: what an endpoint does with a request that no client transaction
-- waits for. A registry is an association list, a channel or a cancellation token a number; what is
-- answered, handed on and fired is appended to lists. The tags that `gen_tag` draws are a parameter.
pub mod Teardown
use wavekat_sip.Base.{
  ℕ, ◌+◌, Bool, true, false, ◌&&◌, List, [], ◌∷◌, ◌++◌, Option, none, some, ◌>>=◌, if◌then◌else◌,
  text_eq,
}
use wavekat_sip.Sip.{
  Str, Method, ack, bye, cancel, info, invite, notify, refer, register, other_method, Request,
  Response,
}
use wavekat_sip.Transaction.Key.{TransactionKey, key_eq, invite_target}
use wavekat_sip.Dialog.{DialogRsip, DialogId, id_from_request}
use wavekat_sip.Answer.{build_response}
use wavekat_sip.Ua.Router.{Incoming}

abbrev pub dialog_id_eq : DialogId → DialogId → Bool
dialog_id_eq a b =
    text_eq a.id_call b.id_call
    && (text_eq a.local_tag b.local_tag && text_eq a.remote_tag b.remote_tag)

-- `HashMap`: `get`, `remove` and `insert`, under the equality of its keys.
module _ {K V : Type 0} (eq : K → K → Bool) where
  unfoldable pub registered_at : K → List (K × V) → Option V
  registered_at key [] = none
  registered_at key ((other, v) ∷ rest) =
      let found = registered_at key rest in if eq key other then some v else found

  unfoldable pub unregister_at : K → List (K × V) → List (K × V)
  unregister_at key [] = []
  unregister_at key ((other, v) ∷ rest) =
      let kept = unregister_at key rest in if eq key other then kept else (other, v) ∷ kept

  unfoldable pub register_at : K → V → List (K × V) → List (K × V)
  unfolding unregister_at
  register_at key v table = (key, v) ∷ unregister_at key table

pub record PendingInvite : Type 0 where
  pub pending_invite : Request
  pub pending_token : ℕ

pub record Endpoint : Type 0 where
  pub dialogs : List (DialogId × ℕ)
  pub terminations : List (DialogId × ℕ)
  pub incoming_invites : List (TransactionKey × PendingInvite)
  pub answers : List (TransactionKey × Response)
  pub calls : List Incoming
  pub handed : List (ℕ × Incoming)
  pub fired : List ℕ
  pub drawn : ℕ

abbrev pub register_dialog : DialogId → ℕ → Endpoint → Endpoint
register_dialog id channel e = record e { dialogs = register_at dialog_id_eq id channel e.dialogs }

abbrev pub unregister_dialog : DialogId → Endpoint → Endpoint
unregister_dialog id e = record e { dialogs = unregister_at dialog_id_eq id e.dialogs }

abbrev pub register_termination : DialogId → ℕ → Endpoint → Endpoint
register_termination id token e = record e {
  terminations = register_at dialog_id_eq id token e.terminations;
}

abbrev pub unregister_termination : DialogId → Endpoint → Endpoint
unregister_termination id e = record e {
  terminations = unregister_at dialog_id_eq id e.terminations;
}

abbrev pub register_incoming : TransactionKey → Request → ℕ → Endpoint → Endpoint
register_incoming key inv token e =
    let pending : PendingInvite = record { pending_invite = inv; pending_token = token } in
    record e { incoming_invites = register_at key_eq key pending e.incoming_invites }

abbrev pub unregister_incoming : TransactionKey → Endpoint → Endpoint
unregister_incoming key e = record e {
  incoming_invites = unregister_at key_eq key e.incoming_invites;
}

abbrev answer_list : TransactionKey → Option Response → List (TransactionKey × Response)
answer_list key none = []
answer_list key (some resp) = (key, resp) ∷ []

abbrev fire : ℕ → Endpoint → Endpoint
fire token e = record e { fired = e.fired ++ token ∷ [] }

abbrev is_some : {A : Type 0} → Option A → Bool
is_some none = false
is_some (some a) = true

module _ (r : DialogRsip) (gen_tag : ℕ → Str) where
  unfoldable pub has_to_tag : Request → Bool
  has_to_tag req =
      is_some (do raw ← r.base.to_header req.headers; typed ← r.typed_party raw; r.party_tag typed)

  -- What an answer to `req` on its transaction adds, with a freshly drawn tag.
  abbrev pub tagged_answer : TransactionKey → Request → ℕ → ℕ → List (TransactionKey × Response)
  tagged_answer key req status draw =
      answer_list key (build_response r req status (some (gen_tag draw)) none none)

  unfoldable pub auto_answer_200 : TransactionKey → Request → Endpoint → Endpoint
  auto_answer_200 key req e = record e {
    answers = e.answers ++ tagged_answer key req 200 e.drawn;
    drawn = e.drawn + 1;
  }

  abbrev pub to_call : Incoming → Option ℕ → Endpoint → Endpoint
  to_call inc (some channel) e = record e { handed = e.handed ++ (channel, inc) ∷ [] }
  to_call inc none e = auto_answer_200 inc.incoming_key inc.incoming_req e

  unfoldable pub in_dialog : Incoming → Endpoint → Endpoint
  in_dialog inc e =
      to_call inc
        (id_from_request r inc.incoming_req >>= λ id. registered_at dialog_id_eq id e.dialogs) e

  unfoldable pub new_call : Incoming → Endpoint → Endpoint
  new_call inc e = record e {
    answers =
        e.answers
        ++ answer_list inc.incoming_key (build_response r inc.incoming_req 100 none none none);
    calls = e.calls ++ inc ∷ [];
  }

  abbrev pub end_call : Option ℕ → Endpoint → Endpoint
  end_call none e = e
  end_call (some token) e = fire token e

  unfoldable pub on_bye : Incoming → Endpoint → Endpoint
  unfolding auto_answer_200
  on_bye inc e =
      end_call
        (id_from_request r inc.incoming_req >>= λ id. registered_at dialog_id_eq id e.terminations)
        (auto_answer_200 inc.incoming_key inc.incoming_req e)

  abbrev pub end_invite : TransactionKey → Option PendingInvite → Endpoint → Endpoint
  end_invite key none e = e
  end_invite key (some pending) e = fire pending.pending_token (record e {
    incoming_invites = unregister_at key_eq key e.incoming_invites;
    answers = e.answers ++ tagged_answer key pending.pending_invite 487 e.drawn;
    drawn = e.drawn + 1;
  })

  unfoldable pub on_cancel : Incoming → Endpoint → Endpoint
  unfolding auto_answer_200
  on_cancel inc e =
      let key = invite_target inc.incoming_key in
      end_invite key (registered_at key_eq key e.incoming_invites)
        (auto_answer_200 inc.incoming_key inc.incoming_req e)

  -- The `match` of `route_inbound` on the method.
  unfoldable pub route_method : Method → Incoming → Endpoint → Endpoint
  unfolding auto_answer_200 in_dialog new_call on_bye on_cancel has_to_tag
  route_method invite inc e =
      if has_to_tag inc.incoming_req then in_dialog inc e else new_call inc e
  route_method ack inc e = e
  route_method info inc e = in_dialog inc e
  route_method refer inc e = in_dialog inc e
  route_method notify inc e = in_dialog inc e
  route_method bye inc e = on_bye inc e
  route_method cancel inc e = on_cancel inc e
  route_method register inc e = auto_answer_200 inc.incoming_key inc.incoming_req e
  route_method (other_method n) inc e = auto_answer_200 inc.incoming_key inc.incoming_req e

  unfoldable pub route_inbound : Incoming → Endpoint → Endpoint
  unfolding route_method
  route_inbound inc e = route_method inc.incoming_req.method inc e
