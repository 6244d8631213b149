-- ===== src/Examples/TimingChat/Visit.antt =====
-- A client that comes and goes in examples/framework-intro/timing_group_chat_service.cc.
use simple_http_serv.Prelude.{
  ℕ, ◌+◌, ◌-◌, ◌≤◌, ◌<◌, ◌≡◌, ◌≢◌, sym, ap, subst, ◌∙◌, false, inl, inr, [], ◌∷◌, arith, ok, ltb,
  Bool-cases,
}
use simple_http_serv.Prelude.Int.{pos}
use simple_http_serv.Sys.{SockAddr, close, accepted}
use simple_http_serv.Examples.Timers.Chain.{Cell, Cells, has, insert_sorted, erase}
use simple_http_serv.Examples.Chat.{max_client, max_fd}
use simple_http_serv.Examples.Chat.SignalChat.{st_idx_client}
use simple_http_serv.Examples.TimingChat.{TimingChat, Turn, on_accept, on_gone}
use simple_http_serv.Examples.TimingChat.Entries.{Entry, IsTimed}
use simple_http_serv.Examples.TimingChat.Join.{new_cell, IsNew, on_accept-IsTimed}
use simple_http_serv.Examples.TimingChat.Gone.{on_gone-IsTimed}

erase-insert_sorted :
    (c : Cell) (xs : Cells) → has c.at xs ≡ false → erase c.at (insert_sorted c xs) ≡ xs
unfolding erase insert_sorted
erase-insert_sorted c [] o = ground arith
erase-insert_sorted c (x ∷ xs) o = elim (Bool-cases (ltb x.expire c.expire)) [
  | inl e ↦ rw e (ground (arith, erase-insert_sorted c xs))
  | inr e ↦ rw e (ground arith)
]

-- When table and timers agree, a client connects, with the conditions that let it join (there is a
-- seat; its descriptor is that of no client of the table, and is below kMaxnFD; `new` returns memory
-- that is not null and not in use; the loops' fuel exceeds the seats), and leaves before anything else
-- happens: its socket is closed, and the entries and the timers are those from before it came.
pub on_accept-on_gone :
    (k : ℕ) (p : Turn) (fd : ℕ) (addr : SockAddr) (c : TimingChat) (xs : Cells)
    → max_client < k
    → IsTimed c xs
    → p.accept ≡ accepted fd addr
    → fd < max_fd
    → c.table.cnt < max_client
    → ((i n : ℕ) → st_idx_client ≤ i → i < st_idx_client + c.table.cnt → Entry c xs i n → n ≢ fd)
    → IsNew p xs
    → (c1 : TimingChat) × (c2 : TimingChat) × (on_accept k p c ≡ ok (c1, []))
      × (on_gone k (st_idx_client + c.table.cnt) c1 ≡ ok (c2, close (pos fd) ∷ []))
      × IsTimed c2 xs
      × (c2.table.cnt ≡ c.table.cnt)
      × ((i n : ℕ)
          → st_idx_client ≤ i
          → i < st_idx_client + c.table.cnt
          → Entry c xs i n
          → Entry c2 xs i n)
on_accept-on_gone k p fd addr c xs fuel v a b room other new =
    let (c1, e, v1, count1, entry1, timer1, kept1) =
      on_accept-IsTimed k p fd addr c xs fuel v a b room other new in
    let seat : st_idx_client + c.table.cnt ≡ st_idx_client + c1.table.cnt - 1 =
      omega (arith, count1) in
    let (c2, g, v2, count2, kept2) =
      on_gone-IsTimed k c1 _ fd fuel v1 (omega (arith, count1))
        (subst (λ i. Entry c1 (insert_sorted (new_cell p fd) xs) i fd) seat entry1) in
    let back : erase (c1.table.clients fd).timer (insert_sorted (new_cell p fd) xs) ≡ xs =
      ap (λ q. erase q (insert_sorted (new_cell p fd) xs)) timer1
      ∙ erase-insert_sorted (new_cell p fd) xs new.unused in
    (
      c1,
      c2,
      e,
      subst (λ i. on_gone k i c1 ≡ ok (c2, close (pos fd) ∷ [])) (sym seat) g,
      subst (IsTimed c2) back v2,
      omega (arith, count1, count2),
      λ i n l h en.
          subst (λ ys. Entry c2 ys i n) back
            (kept2 i n l (omega (arith, count1)) (kept1 i n l h en)),
    )
