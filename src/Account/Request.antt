-- ===== src/Account/Request.antt =====
-- account/txnReqResp.go. A time is a number of nanoseconds since some moment long past; the time of a
-- request is in whole seconds. The channel of a request is left to those who send on it.
use relayer2_public.Base.{ℕ, String, ◌+◌, ◌*◌, Bool, true, Option, List, ltb, if◌then◌else◌}
use relayer2_public.Account.Status.{Status, any, time_out_error2, status_actions}
use relayer2_public.Account.Value.{Value, null}

abbrev pub second : ℕ
second = 1_000_000_000

abbrev pub timeout_seconds : ℕ
timeout_seconds = 60

-- What the code reads of an address: its text and its bytes.
pub record Address : Type 0 where
  pub hex : String
  pub bytes : List ℕ

pub record TxnReq : Type 0 where
  pub processor_index : ℕ
  pub timestamp : ℕ
  pub nonce : ℕ  -- uint64
  pub sender : Address
  pub raw_txn : List ℕ
  pub hash : String
  pub retransmit : Bool

-- The inner `txnResp`. A nil error is `none`.
pub record Response : Type 0 where
  pub status : Status
  pub resp : Value
  pub err : Option String
  pub ts : ℕ

-- `TxnResp`, whose channel `done` is left to `Notify` and `Get`.
pub record TxnResp : Type 0 where
  pub txn_resp : Response
  pub received : Bool

unfoldable pub expired : ℕ → TxnReq → Bool
expired now req = ltb (req.timestamp * second + timeout_seconds * second) now

-- What `RespondWithStatus` and `Respond` send.
unfoldable pub respond_with_status : ℕ → Status → Response
respond_with_status now status = record {
  status = status;
  resp = null;
  err = (status_actions status).error;
  ts = now;
}

unfoldable pub respond : ℕ → Value → Option String → Response
respond now resp err = record { status = any; resp = resp; err = err; ts = now }

unfoldable pub set_with_status : ℕ → Status → TxnResp → TxnResp
set_with_status now status r = record r {
  txn_resp = record (r.txn_resp) { status = status; ts = now; err = (status_actions status).error };
}

unfoldable pub set_resp : Response → TxnResp → TxnResp
set_resp txn_resp r = record r { txn_resp = txn_resp }

unfoldable pub notify : TxnResp → TxnResp
notify r = record r { received = true }

-- `Get`: the response that is there when it ends, by the notification or by its own timeout.
unfoldable pub get_resp : ℕ → Bool → TxnResp → TxnResp × Value × Option String
unfolding set_with_status
get_resp now timed_out r =
    if r.received
    then (r, r.txn_resp.resp, r.txn_resp.err)
    else let s = if timed_out then set_with_status now time_out_error2 r else r in
      (s, s.txn_resp.resp, s.txn_resp.err)
