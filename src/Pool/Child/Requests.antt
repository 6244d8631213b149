-- ===== src/Pool/Child/Requests.antt =====
-- `ProcessPool<ReqStatMach>` of src/MainMultiProc.cc: the connection machine as the pool's client.
use simple_http_serv.Prelude.{ℕ, refl, inl, Run, ok, fault, List}
use simple_http_serv.Prelude.Int.{minus_one, eq_ℤ_iff}
use simple_http_serv.Sys.{Action}
use simple_http_serv.ReqStatMach.State.{ReqStatMach, init, is_init, fresh}
use simple_http_serv.ReqStatMach.Batch.Handled.{IsSound}
use simple_http_serv.ReqStatMach.Process.{process}
use simple_http_serv.ReqStatMach.Process.Safety.{HasEnded, process_safe, init-IsSound}
use simple_http_serv.Pool.Child.{Client, Fds}
use simple_http_serv.Pool.Child.Slots.{Processed, ClientLaws, Slots}

-- `init` sets every field, whatever the machine was before.
abbrev pub requests : Client ReqStatMach
requests = record {
  init = λ epollfd sockfd addr m. init epollfd sockfd addr;
  is_init = is_init;
  process = process;
}

ended-Processed :
    (m : ReqStatMach) (r : Run (ReqStatMach × List Action))
    → HasEnded m r
    → Processed requests IsSound r
unfolding is_init
ended-Processed m (fault f) k = k
ended-Processed m (ok (m', actions)) (sound, free, acts) =
    (sound, (eq_ℤ_iff m'.sockfd minus_one).1 free)

-- The machine keeps what the pool relies on.
pub requests-ClientLaws : ClientLaws requests IsSound
unfolding is_init init
requests-ClientLaws = record {
  init_sound = λ epollfd sockfd addr m. init-IsSound epollfd sockfd addr;
  init_own = λ epollfd sockfd addr m. (eq_ℤ_iff sockfd sockfd).1 refl;
  process_sound =
      λ recv m fits sound. ended-Processed m (process recv m) (process_safe recv fits m sound);
}

-- `new T[k_max_clientfd]`
abbrev pub new_clients : ℕ → ReqStatMach
new_clients i = fresh

pub new_clients-Slots : (fds : Fds) → Slots requests IsSound requests-ClientLaws fds new_clients
unfolding fresh init is_init
new_clients-Slots fds i =
    (init-IsSound minus_one minus_one (record { sin_addr = 0; sin_port = 0 }), inl refl)
