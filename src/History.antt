-- ===== src/History.antt =====
-- harness/history.cpp: the record of what the clients of a run asked and got.
use sim_kv.Prelude.{ℕ, zero, suc, List, [], ◌∷◌, ◌++◌, Bool, true, false, length}
use sim_kv.Types.{Bytes}

pub data OpKind : Type 0 where
  op_put op_get op_cas : OpKind

pub record HistoryEntry : Type 0 where
  pub client_id : ℕ
  pub request_id : ℕ
  pub kind : OpKind
  pub key : Bytes
  pub value : Bytes
  pub expected : Bytes
  pub invoke : ℕ
  pub ret : ℕ
  pub response : Bytes
  pub ok : Bool
  pub pending : Bool

abbrev pub History : Type 0
History = List HistoryEntry

-- History::record_invoke, with the handle it returns
unfoldable pub record_invoke :
    (client_id request_id : ℕ)
    → OpKind
    → Bytes
    → ℕ
    → (value expected : Bytes) → History
    → History × ℕ
record_invoke client_id request_id kind key invoke_time value expected entries =
    let entry : HistoryEntry = record {
      client_id = client_id;
      request_id = request_id;
      kind = kind;
      key = key;
      value = value;
      expected = expected;
      invoke = invoke_time;
      ret = 0;
      response = [];
      ok = false;
      pending = true;
    } in
    (entries ++ entry ∷ [], length entries)

-- History::record_return. A handle past the end, which the source does not guard against, changes
-- nothing.
unfoldable pub record_return : (handle ret_time : ℕ) → Bool → Bytes → History → History
record_return handle ret_time ok response [] = []
record_return zero ret_time ok response (e ∷ es) =
    record e { ret = ret_time; ok = ok; response = response; pending = false } ∷ es
record_return (suc handle) ret_time ok response (e ∷ es) =
    e ∷ record_return handle ret_time ok response es
