-- ===== src/Workload/Loop.antt =====
-- The closed loop: each client has at most one operation out, and the history knows which.
use sim_kv.Prelude.{
  ℕ, ◌+◌, ◌≤◌, ◌<◌, ◌^◌, ◌≡◌, ◌≢◌, refl, sym, ap, ◌∙◌, [], ◌∷◌, ◌++◌, Bool, true, false, some, ◌==◌,
  ==_iff, length, get_elem?, get_elem?-length, length-append, arith, Bool-cases, inl, inr, add64,
  sub64,
}
use sim_kv.Types.{Bytes}
use sim_kv.Prng.{set}
use sim_kv.History.{HistoryEntry, History, record_return}
use sim_kv.Workload.{ClientState, Workload, client_id_base}
use sim_kv.Workload.Ledger.{
  waiting_count, pending_count, one_if, waiting_count-set, get_elem?-set_self, get_elem?-set_ne,
  pending_count-record_return, get_elem?-record_return_ne, length-record_return,
  pending_count-append, get_elem?-append_some,
}

-- The entry at a handle is pending and was made by the client.
abbrev pub Holds : History → ℕ → ℕ → Type 0
Holds h handle i =
    (e : HistoryEntry) × (get_elem? h handle ≡ some e)
    × (e.pending ≡ true)
    × (e.client_id ≡ client_id_base + i)

-- As many operations are pending as clients wait, each waiting client holds a pending entry of its
-- own in the history, and every operation that was issued is completed or pending.
pub record IsClosed {D : Type 0} (w : Workload D) (h : History) : Type 0 where
  pub bounded : w.ops_issued ≤ w.cfg.total_ops
  pub small : w.cfg.total_ops < 2 ^ 64
  pub waiting : w.pending ≡ waiting_count w.clients
  pub summed : w.ops_issued ≡ w.ops_completed + w.pending
  pub logged : length h ≡ w.ops_issued
  pub open' : pending_count h ≡ w.pending
  pub held :
      (i : ℕ) (cs : ClientState)
      → get_elem? w.clients i ≡ some cs
      → cs.waiting ≡ true
      → Holds h cs.history_handle i

some_inj {ℓ} : {A : Type ℓ} {x y : A} → some x ≡ some y → x ≡ y
some_inj h = cc

stopped :
    (cs found : ClientState) → some cs ≡ some found → cs.waiting ≡ false → found.waiting ≡ true → ⊥
stopped cs found same idle out =
    let e : cs ≡ found = cc in cc (ap (λ (c : ClientState). c.waiting) e)

same_owner :
    (h : History) (a b i j : ℕ) (e f : HistoryEntry)
    → get_elem? h a ≡ some e
    → get_elem? h b ≡ some f
    → e.client_id ≡ client_id_base + i
    → f.client_id ≡ client_id_base + j
    → a ≡ b
    → i ≡ j
same_owner h a b i j e f at_a at_b mine his same =
    let equal : e ≡ f = cc in omega (arith, ap (λ (c : HistoryEntry). c.client_id) equal, mine, his)

module _ {D : Type 0} (w : Workload D) (h : History) (ci : ℕ) (cs : ClientState) where
  -- A client that stops waiting, and the return in the history.
  complete-held :
      (leader t : ℕ) (was_ok : Bool) (response : Bytes)
      → IsClosed w h
      → get_elem? w.clients ci ≡ some cs
      → cs.waiting ≡ true
      → (i : ℕ) (found : ClientState)
      → get_elem? (set w.clients ci (record cs { waiting = false; believed_leader = leader })) i
        ≡ some found
      → found.waiting ≡ true
      → Holds (record_return cs.history_handle t was_ok response h) found.history_handle i
  complete-held leader t was_ok response v at_ci waits i found at_i out =
      elim (Bool-cases (ci == i)) [
        | inl same ↦ absurd (
            stopped (record cs { waiting = false; believed_leader = leader }) found
              (sym (get_elem?-set_self ci cs _ w.clients at_ci)
                ∙ ap
                    (get_elem?
                      (set w.clients ci (record cs { waiting = false; believed_leader = leader })))
                    ((==_iff ci i).0 same)
                ∙ at_i)
              refl out)
        | inr other ↦
            let apart : ci ≢ i = λ e. ground arith in
            let at_i' = sym (get_elem?-set_ne ci i _ w.clients apart) ∙ at_i in
            let (e, at_e, open_e, mine) = v.held ci cs at_ci waits in
            let (f, at_f, open_f, his) = v.held i found at_i' out in
            let handles : cs.history_handle ≢ found.history_handle = λ p.
              apart (
                same_owner h cs.history_handle found.history_handle ci i e f at_e at_f mine his
                  p) in
            (
              f,
              get_elem?-record_return_ne cs.history_handle found.history_handle t was_ok response h
                    handles
                  ∙ at_f,
              open_f,
              his,
            )
      ]

  pub complete-IsClosed :
      (leader t : ℕ) (was_ok : Bool) (response : Bytes)
      → IsClosed w h
      → get_elem? w.clients ci ≡ some cs
      → cs.waiting ≡ true
      → IsClosed
          (record w {
            clients = set w.clients ci (record cs { waiting = false; believed_leader = leader });
            pending = sub64 w.pending 1;
            ops_completed = add64 w.ops_completed 1;
          })
          (record_return cs.history_handle t was_ok response h)
  complete-IsClosed leader t was_ok response v at_ci waits =
      let fewer =
        waiting_count-set ci cs (record cs { waiting = false; believed_leader = leader }) w.clients
          at_ci in
      let one = ap one_if waits in
      let (e, at_e, open_e, mine) = v.held ci cs at_ci waits in
      let noted = pending_count-record_return cs.history_handle t was_ok response e h at_e in
      record {
        bounded = v.bounded;
        small = v.small;
        waiting = omega (arith, fewer, one, v.waiting, v.summed, v.bounded, v.small);
        summed = omega (arith, fewer, one, v.waiting, v.summed, v.bounded, v.small);
        logged = length-record_return cs.history_handle t was_ok response h ∙ v.logged;
        open' = omega (
          arith,
          noted,
          ap one_if open_e,
          fewer,
          one,
          v.open',
          v.waiting,
          v.summed,
          v.bounded,
          v.small,
        );
        held = complete-held leader t was_ok response v at_ci waits;
      }

  -- A client that starts to wait, and the invocation in the history.
  invoke-held :
      (cs' : ClientState) (e : HistoryEntry)
      → IsClosed w h
      → get_elem? w.clients ci ≡ some cs
      → cs'.history_handle ≡ length h
      → e.pending ≡ true
      → e.client_id ≡ client_id_base + ci
      → (i : ℕ) (found : ClientState) → get_elem? (set w.clients ci cs') i ≡ some found
      → found.waiting ≡ true
      → Holds (h ++ e ∷ []) found.history_handle i
  invoke-held cs' e v at_ci handle open_e mine i found at_i out = elim (Bool-cases (ci == i)) [
    | inl same ↦
        let i_is : ci ≡ i = (==_iff ci i).0 same in
        let it : cs' ≡ found = some_inj (
          sym (get_elem?-set_self ci cs cs' w.clients at_ci)
          ∙ ap (get_elem? (set w.clients ci cs')) i_is
          ∙ at_i) in
        (
          e,
          ap (get_elem? (h ++ e ∷ []))
                (ap (λ (c : ClientState). c.history_handle) (sym it) ∙ handle)
              ∙ get_elem?-length h e,
          open_e,
          mine ∙ ap (λ n. client_id_base + n) i_is,
        )
    | inr other ↦
        let apart : ci ≢ i = λ p. ground arith in
        let (f, at_f, open_f, his) =
          v.held i found (sym (get_elem?-set_ne ci i cs' w.clients apart) ∙ at_i) out in
        (f, get_elem?-append_some found.history_handle f h (e ∷ []) at_f, open_f, his)
  ]

  pub invoke-IsClosed :
      (cs' : ClientState) (e : HistoryEntry)
      → IsClosed w h
      → get_elem? w.clients ci ≡ some cs
      → cs.waiting ≡ false
      → w.ops_issued < w.cfg.total_ops
      → cs'.waiting ≡ true
      → cs'.history_handle ≡ length h
      → e.pending ≡ true
      → e.client_id ≡ client_id_base + ci
      → IsClosed
          (record w {
            clients = set w.clients ci cs';
            pending = add64 w.pending 1;
            ops_issued = add64 w.ops_issued 1;
          })
          (h ++ e ∷ [])
  invoke-IsClosed cs' e v at_ci idle room waits handle open_e mine =
      let more = waiting_count-set ci cs cs' w.clients at_ci in
      let none_before = ap one_if idle in
      let one = ap one_if waits in
      let noted = pending_count-append h e in
      record {
        bounded = omega (arith, room, v.small);
        small = v.small;
        waiting = omega (arith, more, none_before, one, v.waiting, v.summed, room, v.small);
        summed = omega (arith, v.summed, room, v.small);
        logged = omega (arith, length-append h (e ∷ []), v.logged, room, v.small);
        open' = omega (arith, noted, ap one_if open_e, v.open', v.summed, room, v.small);
        held = invoke-held cs' e v at_ci handle open_e mine;
      }
