-- ===== src/KvStore/Refinement.antt =====
-- The store against what it promises: a function from keys to values.
use sim_kv.Prelude.{
  ◌≡◌, ◌≢◌, refl, Option, none, some, [], true, false, if◌then◌else◌, codes, arith, Bool-cases, inl,
  inr,
}
use sim_kv.OrdMap
use sim_kv.OrdMap.{OrdMap, find, erase, bytes_ord, lex, lex-eq, lex_refl}
use sim_kv.OrdMap.Laws.{
  IsSorted, put-IsSorted, erase-IsSorted, find-put_self, find-put_ne, find-erase_self,
  find-erase_ne,
}
use sim_kv.Types.{
  Bytes, Command, cmd_put, cmd_delete, cmd_cas, cmd_get, cmd_add_server, cmd_remove_server,
  CmdResult,
}
use sim_kv.KvStore.{KvStore, bytes_eq, value_or_empty, done, get, apply}

-- What the store promises: a value or nothing for each key.
abbrev pub Dict : Type 0
Dict = Bytes → Option Bytes

abbrev pub update : Dict → Bytes → Option Bytes → Dict
update d k v j = if bytes_eq j k then v else d j

abbrev pub specified : Command → Dict → CmdResult × Dict
specified (cmd_put key value) d = (done [], update d key (some value))
specified (cmd_delete key) d = (done [], update d key none)
specified (cmd_cas key expected value) d =
    if bytes_eq (value_or_empty (d key)) expected
    then (done value, update d key (some value))
    else (record { ok = false; value = value_or_empty (d key); error = codes "cas_mismatch" }, d)
specified (cmd_get key) d = (done (value_or_empty (d key)), d)
specified (cmd_add_server id) d = (done [], d)
specified (cmd_remove_server id) d = (done [], d)

pub bytes_eq_iff : (a b : Bytes) → bytes_eq a b ≡ true → a ≡ b
unfolding bytes_eq
bytes_eq_iff a b h = lex-eq a b (ground arith)

pub bytes_ne : (a b : Bytes) → bytes_eq a b ≡ false → a ≢ b
unfolding bytes_eq
bytes_ne a b h e = ground (arith, lex_refl a)

get-put :
    (j k v : Bytes) (s : KvStore)
    → IsSorted s.entries
    → find j (OrdMap.put k v s.entries) ≡ update (λ i. get i s) k (some v) j
unfolding get
get-put j k v s h = elim (Bool-cases (bytes_eq j k)) [
  | inl same ↦ rw (same, bytes_eq_iff j k same) (find-put_self k v s.entries)
  | inr other ↦ rw other (find-put_ne k j v s.entries (bytes_ne j k other) h)
]

get-erase :
    (j k : Bytes) (s : KvStore)
    → IsSorted s.entries
    → find j (erase k s.entries) ≡ update (λ i. get i s) k none j
unfolding get
get-erase j k s h = elim (Bool-cases (bytes_eq j k)) [
  | inl same ↦ rw (same, bytes_eq_iff j k same) (find-erase_self k s.entries h)
  | inr other ↦ rw other (find-erase_ne k j s.entries (bytes_ne j k other) h)
]

-- `apply` keeps the keys in order, each once.
pub apply-IsSorted :
    (cmd : Command) (s : KvStore) → IsSorted s.entries → IsSorted (apply cmd s).1.entries
unfolding apply
apply-IsSorted (cmd_put key value) s h = put-IsSorted key value s.entries h
apply-IsSorted (cmd_delete key) s h = erase-IsSorted key s.entries h
apply-IsSorted (cmd_cas key expected value) s h =
    elim (Bool-cases (bytes_eq (value_or_empty (find key s.entries)) expected)) [
      | inl hit ↦ rw hit (put-IsSorted key value s.entries h)
      | inr miss ↦ rw miss h
    ]
apply-IsSorted _ s h = h

-- On every command `apply` returns the result, and leaves for each key the value, that the
-- specification states.
pub apply_refines :
    (cmd : Command) (s : KvStore) (j : Bytes)
    → IsSorted s.entries
    → ((apply cmd s).0 ≡ (specified cmd (λ i. get i s)).0)
      × (get j (apply cmd s).1 ≡ (specified cmd (λ i. get i s)).1 j)
unfolding apply get
apply_refines (cmd_put key value) s j h = (refl, get-put j key value s h)
apply_refines (cmd_delete key) s j h = (refl, get-erase j key s h)
apply_refines (cmd_cas key expected value) s j h =
    elim (Bool-cases (bytes_eq (value_or_empty (find key s.entries)) expected)) [
      | inl hit ↦ rw hit (refl, get-put j key value s h)
      | inr miss ↦ rw miss (refl, refl)
    ]
apply_refines (cmd_get key) s j h = (refl, refl)
apply_refines (cmd_add_server id) s j h = (refl, refl)
apply_refines (cmd_remove_server id) s j h = (refl, refl)
