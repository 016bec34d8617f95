-- ===== src/TcpClient/Listed.antt =====
-- asiolib/tcp-client-async.hpp: what keeps every session that waits in the map of active sessions,
-- under its number.
use boost_asio_samples.Base.{
  ℕ, ◌+◌, ◌<◌, ◌≤◌, ◌≡◌, refl, ap, sym, ◌∙◌, Bool, true, false, List, [], ◌∷◌, ◌++◌, Bytes, Option,
  none, some, ◌==◌, ==_iff, inl, inr, Bool-cases, if◌then◌else◌, arith,
}
use boost_asio_samples.Errors.{ErrorCode, AsioError}
use boost_asio_samples.Dict.{Dict, nat_eq, lookup, erase, lookup-insert, lookup-erase}
use boost_asio_samples.TcpClient.Sessions.{AsyncTcpClient, Op, connect, start}
use boost_asio_samples.TcpClient.{emulate_long_computation_op, cancel_session}
use boost_asio_samples.TcpClient.Once.{address, one, waiting, waiting-append}
use boost_asio_samples.TcpClient.Reuse.{self_eq}
use boost_asio_samples.TcpClient.Effects.{SameIds, put-SameIds, Effect, goes_on, is_done}

-- A session that waits stands in the map under its number.
abbrev pub IsListed : AsyncTcpClient → Type 0
IsListed c =
    (a : ℕ) → 0 < waiting a c.pending → (a < c.next) × (lookup (c.sessions a).id c.active ≡ some a)

abbrev pub one_bit : Bool → ℕ
one_bit b = if b then 1 else 0

-- What stands under another session's number is found when one is erased.
still_found :
    (i j a b : ℕ) (m : Dict ℕ ℕ)
    → (a == b) ≡ false
    → lookup i m ≡ some a
    → lookup j m ≡ some b
    → lookup j (erase i m) ≡ some b
still_found i j a b m other at_i at_j = elim (Bool-cases (i == j)) [
  | inr e ↦ lookup-erase i j m ∙ rw e at_j
  | inl e ↦
      let same : i ≡ j = (==_iff i j).0 e in
      let both : some a ≡ some b = sym at_i ∙ ap (λ k. lookup k m) same ∙ at_j in
      let equal : a ≡ b = cc in let found : (a == b) ≡ true = (==_iff a b).1 equal in absurd cc
]

module _ (asio : AsioError) where
  goes_on-IsListed :
      (pre post : List Op) (op next_op : Op) (c d : AsyncTcpClient)
      → c.pending ≡ pre ++ op ∷ post
      → address next_op ≡ address op
      → d.active ≡ c.active
      → d.pending ≡ (pre ++ post) ++ next_op ∷ []
      → d.next ≡ c.next
      → ((b : ℕ) → (d.sessions b).id ≡ (c.sessions b).id)
      → IsListed c
      → IsListed d
  goes_on-IsListed pre post op next_op c d split own map waits begun ids h b pos =
      let same : waiting b d.pending ≡ waiting b c.pending = omega (
        arith,
        ap (waiting b) waits,
        ap (waiting b) split,
        waiting-append b (pre ++ post) (next_op ∷ []),
        waiting-append b pre post,
        waiting-append b pre (op ∷ post),
        ap (λ x. one x b) own,
      ) in
      let listed = h b (omega (arith, same, pos)) in
      (omega (arith, listed.0, begun), rw (ids b, map) listed.1)

  is_done-IsListed :
      (pre post : List Op) (op : Op) (c d : AsyncTcpClient)
      → c.pending ≡ pre ++ op ∷ post
      → d.active ≡ erase (c.sessions (address op)).id c.active
      → d.pending ≡ pre ++ post
      → d.next ≡ c.next
      → ((b : ℕ) → (d.sessions b).id ≡ (c.sessions b).id)
      → waiting (address op) c.pending ≤ 1
      → IsListed c
      → IsListed d
  is_done-IsListed pre post op c d split map waits begun ids once h b pos =
      let a = address op in
      let more : waiting b c.pending ≡ waiting b d.pending + one a b = omega (
        arith,
        ap (waiting b) waits,
        ap (waiting b) split,
        waiting-append b pre post,
        waiting-append b pre (op ∷ post),
      ) in
      let listed = h b (omega (arith, more, pos)) in
      let first = h a (
        omega (
          arith,
          ap (waiting a) split,
          waiting-append a pre (op ∷ post),
          ap one_bit (self_eq a),
        )) in
      let other : (a == b) ≡ false = elim (Bool-cases (a == b)) [
        | inr e ↦ e
        | inl e ↦
            let twice : 1 < waiting b c.pending = omega (arith, more, pos, ap one_bit e) in
            let self : a ≡ b = (==_iff a b).0 e in
            absurd (omega (arith, twice, once, ap (λ x. waiting x c.pending) self))
      ] in
      (
        omega (arith, listed.0, begun),
        rw (ids b, map)
            (still_found (c.sessions a).id (c.sessions b).id a b c.active other first.1 listed.1),
      )

  pub begin-IsListed :
      (thrown : Option ErrorCode) (duration : ℕ) (ip : Bytes) (port callback id : ℕ)
      (c : AsyncTcpClient)
      → lookup id c.active ≡ none
      → IsListed c
      → IsListed (emulate_long_computation_op thrown duration ip port callback id c)
  unfolding emulate_long_computation_op start
  begin-IsListed (some e) duration ip port callback id c free h b pos = h b pos
  begin-IsListed none duration ip port callback id c free h b pos =
      elim (Bool-cases (b == c.next)) [
        | inl new ↦
            let e : b ≡ c.next = (==_iff b c.next).0 new in
            (
              omega (arith, e),
              rw new (
                  lookup-insert id id c.next c.active ∙ rw (self_eq id) (ap (λ x. some x) (sym e))),
            )
        | inr old ↦
            let apart : (c.next == b) ≡ false = ground arith in
            let listed = h b (
              omega
                (arith, pos, waiting-append b c.pending (connect c.next ∷ []), ap one_bit apart)) in
            let i = (c.sessions b).id in
            (
              omega (arith, listed.0),
              rw old (
                  lookup-insert id i c.next c.active ∙ elim (Bool-cases (id == i)) [
                    | inr e ↦ rw e listed.1
                    | inl e ↦
                        let same : id ≡ i = (==_iff id i).0 e in
                        let both : none ≡ some b =
                          sym free ∙ ap (λ k. lookup k c.active) same ∙ listed.1 in
                        absurd cc
                  ]),
            )
      ]

  pub cancel-IsListed :
      (o : Option ℕ) (c : AsyncTcpClient) → IsListed c → IsListed (cancel_session o c)
  unfolding cancel_session SameIds
  cancel-IsListed none c h b pos = h b pos
  cancel-IsListed (some a) c h b pos =
      let s = c.sessions a in
      let v = record s { was_cancelled = true; cancels = s.cancels + 1 } in
      let listed = h b pos in (listed.0, rw ((put-SameIds a v c refl).1 b) listed.1)

  pub complete-IsListed :
      (pre post : List Op) (op : Op) (c d : AsyncTcpClient)
      → c.pending ≡ pre ++ op ∷ post
      → Effect (address op) (record c { pending = pre ++ post }) d
      → waiting (address op) c.pending ≤ 1
      → IsListed c
      → IsListed d
  unfolding SameIds
  complete-IsListed pre post op c d split (goes_on next_op own map waits same) once h =
      goes_on-IsListed pre post op next_op c d split own map waits same.0 same.1 h
  complete-IsListed pre post op c d split (is_done map waits same) once h =
      is_done-IsListed pre post op c d split map waits same.0 same.1 once h
