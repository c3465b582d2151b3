-- ===== src/Group.antt =====
-- eventloop_engine_group.go: the loops of a group and their choice in turn. A loop is a number. The
-- loops that `StartLoop` makes are an argument.
pub mod Engine
pub mod Starting
pub mod Turns
mod Tests
use muduo_go.Prelude.{
  ℕ, suc, ◌+◌, List, [], ◌∷◌, ◌++◌, Bool, true, false, if◌then◌else◌, ◌==◌, leb, Run, ok, panic,
  ◌>>=◌, Option, none, some, length, get_elem?,
}

pub record EventloopEngineGroup : Type 0 where
  pub boss : ℕ
  pub works : List ℕ
  pub started : Bool
  pub next : ℕ

unfoldable pub new_group : ℕ → EventloopEngineGroup
new_group boss = record { boss = boss; works = []; started = false; next = 0 }

-- `Start`, with the loop that each of the `engineCnt` engines starts.
unfoldable pub start : List ℕ → EventloopEngineGroup → EventloopEngineGroup
start loops g = record g { started = true; works = g.works ++ loops }

abbrev pub or_panic : Option ℕ → Run ℕ
or_panic none = panic
or_panic (some a) = ok a

unfoldable pub get_next_loop : EventloopEngineGroup → Run (ℕ × EventloopEngineGroup)
get_next_loop g = if length g.works == 0 then ok (g.boss, g) else (do
  let h = if leb (length g.works) g.next then record g { next = 0 } else g
  el ← or_panic (get_elem? h.works h.next)
  ok (el, record h { next = h.next + 1 }))
