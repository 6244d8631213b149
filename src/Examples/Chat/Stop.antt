-- ===== src/Examples/Chat/Stop.antt =====
-- SIGTERM in examples/framework-intro/group_chat_service_sio.cc.
use simple_http_serv.Prelude.{
  ℕ, ◌≡◌, refl, ap, ◌∙◌, Bool, true, false, some, List, [], ◌∷◌, ◌++◌, ok, ◌==◌, if_true, if_false,
  Any, here, there,
}
use simple_http_serv.Prelude.Int.{ℤ}
use simple_http_serv.Sys.{Action, close, bytes, left, sigterm}
use simple_http_serv.Examples.Chat.{Chat, Polled}
use simple_http_serv.Examples.Chat.SignalChat.{
  st_idx_client, sigpipe_buf_size, SignalChat, stop_after, read_signals, after_poll,
  run_signal_chat,
}
use simple_http_serv.Examples.Chat.Table.{IsTable}
use simple_http_serv.Examples.Chat.Phases.{Serves}
use simple_http_serv.Examples.Chat.Loop.{AcceptFits, serve_signal_chat_lem}

stays_stopped : (sigs : List ℕ) → stop_after true sigs ≡ true
stays_stopped [] = refl
stays_stopped (sig ∷ sigs) = stays_stopped sigs

stop_after-sigterm :
    (stop : Bool) (sigs : List ℕ)
    → Any (λ sig. sig == sigterm ≡ true) sigs
    → stop_after stop sigs ≡ true
stop_after-sigterm true sigs h = stays_stopped sigs
stop_after-sigterm false [] h = elim h [ ]
stop_after-sigterm false (sig ∷ sigs) (here e) = rw e (stays_stopped sigs)
stop_after-sigterm false (sig ∷ sigs) (there h) = stop_after-sigterm (sig == sigterm) sigs h

read_signals-stop :
    (p : Polled) (s : SignalChat) (sigs : List ℕ)
    → (s.chat.fds 1).revents.pollin ≡ true
    → p.recv (s.chat.fds 1).fd sigpipe_buf_size ≡ bytes sigs
    → (read_signals p s).stop ≡ stop_after s.stop sigs
unfolding read_signals
read_signals-stop p s sigs i r = ap (λ (x : SignalChat). x.stop) (if_true _ _ i) ∙ rw r refl

signal_chat_left :
    (my_sockfd : ℤ) (ps : List Polled) (s : SignalChat)
    → s.stop ≡ true
    → run_signal_chat my_sockfd ps s ≡ ok (left, s, close my_sockfd ∷ [])
unfolding run_signal_chat
signal_chat_left my_sockfd [] s e = if_true _ _ e
signal_chat_left my_sockfd (p ∷ ps) s e = if_true _ _ e

-- A SIGTERM that a turn reads from the pipe ends the loop behind that turn, whatever would come: the
-- turn's phases are done, and the listening socket is closed last.
pub run_signal_chat-stops :
    (my_sockfd : ℤ) (p : Polled) (ps : List Polled) (s s' : SignalChat) (sigs : List ℕ)
    → s.stop ≡ false
    → after_poll p.error p.revents s ≡ some s'
    → (s'.chat.fds 1).revents.pollin ≡ true
    → p.recv (s'.chat.fds 1).fd sigpipe_buf_size ≡ bytes sigs
    → Any (λ sig. sig == sigterm ≡ true) sigs
    → AcceptFits p
    → IsTable st_idx_client s'.chat
    → (c' : Chat) × (actions : List Action) × (run_signal_chat my_sockfd (p ∷ ps) s
        ≡ ok (left, record s' { chat = c'; stop = true }, actions ++ close my_sockfd ∷ []))
      × Serves st_idx_client s'.chat p.accept c' actions
unfolding run_signal_chat
run_signal_chat-stops my_sockfd p ps s s' sigs e n i r h fit t =
    let (c', actions, served, w) = serve_signal_chat_lem p s' fit t in
    let stopped : (read_signals p s').stop ≡ true =
      read_signals-stop p s' sigs i r ∙ stop_after-sigterm s'.stop sigs h in
    (
      c',
      actions,
      if_false _ _ e
          ∙ rw (
            n,
            served,
            stopped,
            signal_chat_left my_sockfd ps (record s' { chat = c'; stop = true }) refl,
          ),
      w,
    )
