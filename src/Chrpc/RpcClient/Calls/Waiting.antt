-- ===== src/Chrpc/RpcClient/Calls/Waiting.antt =====
-- The wait for a response ends.
use chlibs.Common.{
  ℕ, zero, suc, ◌+◌, ◌-◌, ◌%◌, ◌^◌, ◌≤◌, ◌<◌, ◌≡◌, true, Option, none, some, List, arith, ltb,
  ltb→lt, inl, inr, Bool-cases,
}
use chlibs.Chrpc.Channel
use chlibs.Chrpc.Channel.{ChannelImpl, chn_success, chn_no_incoming_msg, chn_receive, chn_refresh}
use chlibs.Chrpc.SerialType.{success, ToBuffer}
use chlibs.Chrpc.SerialValue.{Value}
use chlibs.Chrpc.RpcServer.Handling.{or_same}
use chlibs.Chrpc.RpcServer.Responding.{send_bytes}
use chlibs.Chrpc.RpcClient.{ClientAttrs, Client, request_to_buffer}
use chlibs.Chrpc.RpcClient.Calls.{
  Waited, message, gave_up, still_waiting, waited_receive, waited_refresh, wait_for_response,
  after_wait, request_sent, send_request, request_on, chrpc_client_send_request,
}

abbrev Ended : {C : Type 0} → Waited C → Type 0
Ended still_waiting = ⊥
Ended _ = Unit {0}

abbrev Returned : {A : Type 0} → Option A → Type 0
Returned none = ⊥
Returned (some a) = Unit {0}

module _ {C : Type 0} (impl : ChannelImpl C) (sleep : C → C) where
  receive_ends :
      (rest : C → Waited C) (chn : C) (r : Channel.Status × Option (List ℕ × ℕ) × Option C)
      → ((c : C) → Ended (rest c))
      → Ended (waited_receive impl sleep rest chn r)
  unfolding waited_receive
  receive_ends rest chn (chn_success, out, d) h = tt
  receive_ends rest chn (chn_no_incoming_msg, out, d) h = h (sleep (or_same chn d))
  receive_ends rest chn (_, out, d) h = tt

  refresh_ends :
      (rest : C → Waited C) (n : ℕ) (chn : C) (r : Channel.Status × Option C)
      → ((c : C) → Ended (rest c))
      → Ended (waited_refresh impl sleep rest n chn r)
  unfolding waited_refresh
  refresh_ends rest n chn (chn_success, d) h =
      receive_ends rest (or_same chn d) (chn_receive impl (some (or_same chn d)) true n true) h
  refresh_ends rest n chn (_, d) h = tt

  wait_ends :
      (fuel : ℕ) (attrs : ClientAttrs) (waited : ℕ) (st : Channel.Status) (n : ℕ) (chn : C)
      → 0 < attrs.cadence
      → attrs.timeout + attrs.cadence ≤ 2 ^ 32
      → attrs.timeout - waited < fuel
      → Ended (wait_for_response impl sleep fuel attrs waited st n chn)
  unfolding wait_for_response
  wait_ends zero attrs waited st n chn pos small enough = absurd (omega arith)
  wait_ends (suc fuel) attrs waited st n chn pos small enough =
      elim (Bool-cases (ltb waited attrs.timeout)) [
        | inl e ↦
            let lt = ltb→lt _ _ e in
            rw e (
              refresh_ends _ n chn (chn_refresh impl (some chn)) λ c.
                wait_ends fuel attrs ((waited + attrs.cadence) % 2 ^ 32) chn_no_incoming_msg n c pos
                  small (omega arith))
        | inr e ↦ rw e tt
      ]

  wait_returns :
      (client : Client C) (behind : List ℕ) (w : Waited C)
      → Ended w
      → Returned (after_wait impl sleep client behind w)
  unfolding after_wait
  wait_returns client behind (message bytes chn) h = tt
  wait_returns client behind (gave_up chn_no_incoming_msg chn) h = tt
  wait_returns client behind (gave_up _ chn) h = tt
  wait_returns client behind still_waiting h = h

  sent_returns :
      (fuel : ℕ) (client : Client C) (behind : List ℕ) (r : Channel.Status × C)
      → 0 < client.attrs.cadence
      → client.attrs.timeout + client.attrs.cadence ≤ 2 ^ 32
      → client.attrs.timeout < fuel
      → Returned (request_sent impl sleep fuel client behind r)
  unfolding request_sent
  sent_returns fuel client behind (chn_success, chn) pos small enough =
      wait_returns client behind _
        (wait_ends fuel client.attrs 0 chn_success client.buf_len chn pos small (omega arith))
  sent_returns fuel client behind (_, chn) pos small enough = tt

  request_returns :
      (fuel : ℕ) (client : Client C) (chn : C) (behind : List ℕ) (r : ToBuffer)
      → 0 < client.attrs.cadence
      → client.attrs.timeout + client.attrs.cadence ≤ 2 ^ 32
      → client.attrs.timeout < fuel
      → Returned (send_request impl sleep fuel client chn behind r)
  unfolding send_request
  request_returns fuel client chn behind (success, bytes, w) pos small enough =
      sent_returns fuel client behind (send_bytes impl chn bytes w) pos small enough
  request_returns fuel client chn behind (_, bytes, w) pos small enough = tt

  on_returns :
      (fuel : ℕ) (client : Client C) (name : List ℕ) (args : List Value) (behind : List ℕ)
      (o : Option C)
      → 0 < client.attrs.cadence
      → client.attrs.timeout + client.attrs.cadence ≤ 2 ^ 32
      → client.attrs.timeout < fuel
      → Returned (request_on impl sleep fuel client name args behind o)
  unfolding request_on
  on_returns fuel client name args behind none pos small enough = tt
  on_returns fuel client name args behind (some chn) pos small enough =
      request_returns fuel client chn behind
        (request_to_buffer client.req_type name args client.buf_len) pos small enough

not_none : {A : Type 0} (o : Option A) → Returned o → ¬ (o ≡ none)
not_none none h e = absurd h
not_none (some a) h e = cc

-- With a positive cadence, and a timeout and cadence of at most 2 ^ 32 together, a request returns
-- on more fuel than the timeout, whatever the channel does.
pub chrpc_client_send_request-returns :
    {C : Type 0} (impl : ChannelImpl C) (sleep : C → C) (fuel : ℕ) (client : Client C)
    (name : List ℕ) (args : List Value) (behind : List ℕ)
    → 0 < client.attrs.cadence
    → client.attrs.timeout + client.attrs.cadence ≤ 2 ^ 32
    → client.attrs.timeout < fuel
    → ¬ (chrpc_client_send_request impl sleep fuel client name args behind ≡ none)
unfolding chrpc_client_send_request
chrpc_client_send_request-returns impl sleep fuel client name args behind pos small enough =
    not_none _ (on_returns impl sleep fuel client name args behind client.chn pos small enough)
