-- ===== src/ReqStatMach/Stream/Splits.antt =====
-- Bytes that arrive in batches: when the split into batches cannot matter to src/ReqStatMach.h.
use simple_http_serv.Prelude.{
  ℕ, ◌≡◌, ◌≢◌, refl, Bool, true, false, List, [], ◌∷◌, ◌++◌, arith, ◌==◌, Run, ok, fault,
}
use simple_http_serv.Text.{cr, lf}
use simple_http_serv.ReqStatMach.State.{CheckStat, ResultCode, no_request, reqline, header, entity}
use simple_http_serv.ReqStatMach.Stream.{
  Parse, start, running, done, crashed, next_line, settle, end_of_line, feed, feeds,
}

-- A batch that follows a held carriage return begins with the line feed; no batch is empty.
abbrev pub Joins : Bool → List ℕ → Type 0
Joins held [] = ⊥
Joins false (c ∷ rest) = Unit
Joins true (c ∷ rest) = c ≡ lf

-- The batches, from reading `p` on: none is empty, and none splits a carriage return from a byte
-- other than a line feed. Nothing is asked behind the decision.
abbrev pub AreJoined : Parse → List (List ℕ) → Type 0
AreJoined p [] = Unit
AreJoined (running cs text held) (b ∷ bs) =
    Joins held b × AreJoined (feeds (running cs text held) b) bs
AreJoined (done r) (b ∷ bs) = Unit
AreJoined (crashed f) (b ∷ bs) = Unit

abbrev pub join : List (List ℕ) → List ℕ
join [] = []
join (b ∷ bs) = b ++ join bs

-- Each carriage return has its line feed; `held` says that one stands before the bytes.
abbrev pub IsPaired : Bool → List ℕ → Type 0
IsPaired held [] = Unit
IsPaired true (c ∷ cs) = (c ≡ lf) × IsPaired false cs
IsPaired false (c ∷ cs) = IsPaired (c == cr) cs

abbrev pub AllNonempty : List (List ℕ) → Type 0
AllNonempty [] = Unit
AllNonempty (b ∷ bs) = (b ≢ []) × AllNonempty bs

-- What a reading that goes on asks of the bytes to come.
abbrev Expects : Parse → List ℕ → Type 0
Expects (running cs text held) rest = IsPaired held rest
Expects (done r) rest = Unit
Expects (crashed f) rest = Unit

next_line-Expects :
    (r : ResultCode) (rest : List ℕ) → IsPaired false rest → Expects (next_line r) rest
next_line-Expects no_request rest h = h
next_line-Expects _ rest h = tt

settle-Expects :
    (r : Run ResultCode) (rest : List ℕ) → IsPaired false rest → Expects (settle r) rest
settle-Expects (ok r) rest h = next_line-Expects r rest h
settle-Expects (fault f) rest h = tt

end_of_line-Expects :
    (cs : CheckStat) (text rest : List ℕ) → IsPaired false rest → Expects (end_of_line cs text) rest
unfolding end_of_line
end_of_line-Expects reqline text rest h = settle-Expects _ rest h
end_of_line-Expects header text rest h = next_line-Expects _ rest h
end_of_line-Expects entity text rest h = tt

feed-Expects : (p : Parse) (c : ℕ) (rest : List ℕ) → Expects p (c ∷ rest) → Expects (feed p c) rest
unfolding feed
feed-Expects (running cs text true) c rest (e, h) =
    ground (arith, end_of_line-Expects cs text rest h)
feed-Expects (running cs text false) c rest h = ground arith
feed-Expects (done r) c rest h = tt
feed-Expects (crashed f) c rest h = tt

feeds-Expects : (p : Parse) (b rest : List ℕ) → Expects p (b ++ rest) → Expects (feeds p b) rest
unfolding feeds
feeds-Expects p [] rest h = h
feeds-Expects p (c ∷ b) rest h = feeds-Expects (feed p c) b rest (feed-Expects p c (b ++ rest) h)

Joins-paired : (held : Bool) (b rest : List ℕ) → b ≢ [] → IsPaired held (b ++ rest) → Joins held b
Joins-paired held [] rest ne h = absurd (ne refl)
Joins-paired false (c ∷ b) rest ne h = tt
Joins-paired true (c ∷ b) rest ne h = h.0

Expects-AreJoined :
    (bs : List (List ℕ)) → AllNonempty bs → (p : Parse) → Expects p (join bs) → AreJoined p bs
Expects-AreJoined [] ne p h = tt
Expects-AreJoined (b ∷ bs) (ne, nes) (running cs text held) h =
    let p : Parse = running cs text held in
    (
      Joins-paired held b (join bs) ne h,
      Expects-AreJoined bs nes (feeds p b) (feeds-Expects p b (join bs) h),
    )
Expects-AreJoined (b ∷ bs) (ne, nes) (done r) h = tt
Expects-AreJoined (b ∷ bs) (ne, nes) (crashed f) h = tt

-- Where every carriage return has its line feed, any split into nonempty batches will do.
pub paired-AreJoined :
    (bs : List (List ℕ)) → AllNonempty bs → IsPaired false (join bs) → AreJoined start bs
paired-AreJoined bs ne h = Expects-AreJoined bs ne start h
