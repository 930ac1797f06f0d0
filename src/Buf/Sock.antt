-- ===== src/Buf/Sock.antt =====
-- The transfers between a buffer and a socket of src/core/atm_buf.c. The system calls `read` and
-- `write` on a socket are parameters: they take the state of the socket, and `none` is the result -1.
use atm_cache.Base.{
  ℕ, zero, suc, ◌+◌, ◌-◌, ◌≤◌, ◌≡◌, true, false, Option, none, some, List, [], ◌∷◌, ◌++◌, length,
  take, ltb, if◌then◌else◌, Run, ok, stop, ◌>>=◌, null_dereference, out_of_fuel,
}
use atm_cache.Buf.{Pooled, get_rblk, get_wblk, put_bytes, skip_bytes, copy_from}

pub record Socket (S : Type 0) : Type 0 where
  pub sys_read : S → ℕ → Option (List ℕ) × S
  pub sys_write : S → List ℕ → Option ℕ × S

-- What the code relies on: `incoming` is what the peer has sent and no `read` has given yet, and
-- `outgoing` what the calls of `write` have taken, in order. A call gives or takes as many bytes as
-- it returns, at most those that it was asked for, and none where it fails.
pub record SocketLaws {S : Type 0} (k : Socket S) : Type 0 where
  pub incoming : S → List ℕ
  pub outgoing : S → List ℕ
  pub read_some :
      (s : S) (n : ℕ) (bytes : List ℕ)
      → (k.sys_read s n).0 ≡ some bytes
      → (length bytes ≤ n) × (incoming s ≡ bytes ++ incoming (k.sys_read s n).1)
  pub read_none :
      (s : S) (n : ℕ) → (k.sys_read s n).0 ≡ none → incoming s ≡ incoming (k.sys_read s n).1
  pub write_some :
      (s : S) (bytes : List ℕ) (n : ℕ)
      → (k.sys_write s bytes).0 ≡ some n
      → (n ≤ length bytes) × (outgoing (k.sys_write s bytes).1 ≡ outgoing s ++ take n bytes)
  pub write_none :
      (s : S) (bytes : List ℕ)
      → (k.sys_write s bytes).0 ≡ none
      → outgoing (k.sys_write s bytes).1 ≡ outgoing s

-- `total > 0 ? total : ret`.
unfoldable pub sock_result : ℕ → Option ℕ → Option ℕ
sock_result total ret = if ltb 0 total then some total else ret

module _ {S : Type 0} (k : Socket S) where
  -- One round for each call of `read` that gives a byte, and one more.
  unfoldable pub buf_read_sock : ℕ → Pooled → S → ℕ → Run (Option ℕ × (Pooled × S))
  buf_read_sock zero m s total = stop out_of_fuel
  buf_read_sock (suc f) m s total =
      let found = get_wblk m in
      elim found.0 [
        | none ↦ stop null_dereference
        | some b ↦
            let r = k.sys_read s (b.size - b.widx) in
            elim r.0 [
              | none ↦ ok (sock_result total none, (found.1, r.1))
              | some [] ↦ ok (sock_result total (some 0), (found.1, r.1))
              | some (c ∷ cs) ↦ do
                m' ← put_bytes found.1 b (c ∷ cs)
                buf_read_sock f m' r.1 (total + length (c ∷ cs))
            ]
      ]

  unfoldable pub buf_write_sock : ℕ → Pooled → S → ℕ → Option ℕ → Run (Option ℕ × (Pooled × S))
  buf_write_sock zero m s total ret = stop out_of_fuel
  buf_write_sock (suc f) m s total ret =
      let found = get_rblk m in
      elim found.0 [
        | none ↦ ok (sock_result total ret, (found.1, s))
        | some b ↦ elim (ltb 0 (b.widx - b.ridx)) [
          | false ↦ ok (sock_result total ret, (found.1, s))
          | true ↦ do
            bytes ← copy_from b.head b.ridx (b.widx - b.ridx)
            elim (k.sys_write s bytes).0 [
              | none ↦ ok (sock_result total none, (found.1, (k.sys_write s bytes).1))
              | some n ↦ elim (ltb 0 n) [
                | false ↦ ok (sock_result total (some n), (found.1, (k.sys_write s bytes).1))
                | true ↦
                    buf_write_sock f (skip_bytes found.1 b n) (k.sys_write s bytes).1 (total + n)
                      (some n)
              ]
            ]
        ]
      ]
