-- ===== src/Logger/Writers.antt =====
-- How many syslog connections the loggers of logger/logger.go leave open.
use rabbit_mtcp_ws_socks.Prelude.{
  ℕ, suc, ◌+◌, ◌≡◌, refl, ◌∙◌, true, Option, none, some, List, [], ◌∷◌, ◌++◌, arith, length,
}
use rabbit_mtcp_ws_socks.Logger.{Process, new_logger, close_syslog}

-- The loggers of the parts that the program creates, one after the other.
unfoldable pub created : List (List ℕ) → Process → Option Process
created [] p = some p
created (prefix ∷ rest) p = elim (new_logger true prefix p) [
  | none ↦ none
  | some (l, p') ↦ created rest p'
]

-- What the last logger of a list leaves.
abbrev last_writer : ℕ → List (List ℕ) → Option ℕ → Option ℕ
last_writer n [] w = w
last_writer n (x ∷ xs) w = some (n + length xs)

abbrev logged : List (List ℕ) → Process → Process
logged xs p = record p {
  syslog_writer = last_writer p.opened xs p.syslog_writer;
  opened = p.opened + length xs;
}

-- The process with another writer and another number of writers.
abbrev marked : Process → ℕ → ℕ → Process
marked p w n = record p { syslog_writer = some w; opened = n }

marked_eq : (p : Process) (w n v m : ℕ) → w ≡ v → n ≡ m → some (marked p w n) ≡ some (marked p v m)
marked_eq p w n v m h k = cc

created_step :
    (x : List ℕ) (xs : List (List ℕ)) (p : Process)
    → p.use_syslog ≡ true
    → created (x ∷ xs) p ≡ created xs (marked p p.opened (suc p.opened))
unfolding created new_logger
created_step x xs p u = rw (u)

created-logged :
    (xs : List (List ℕ)) (x : List ℕ) (p : Process)
    → p.use_syslog ≡ true
    → created (x ∷ xs) p ≡ some (logged (x ∷ xs) p)
unfolding created
created-logged [] x p u =
    created_step x [] p u
    ∙ marked_eq p p.opened (suc p.opened) (p.opened + 0) (p.opened + 1) (omega arith) (omega arith)
created-logged (y ∷ ys) x p u =
    created_step x (y ∷ ys) p u
    ∙ created-logged ys y (marked p p.opened (suc p.opened)) u
    ∙ marked_eq p (suc p.opened + length ys) (suc p.opened + suc (length ys))
        (p.opened + suc (length ys)) (p.opened + suc (suc (length ys))) (omega arith) (omega arith)

-- Each logger opens a connection to syslog of its own, and a client or a server that shuts down
-- closes the last one only: after at least one logger was created in a process that uses syslog,
-- as many connections are open as there were loggers, and CloseSyslog closes one of them.
pub writers_leak :
    (x : List ℕ) (xs : List (List ℕ)) (p : Process)
    → p.use_syslog ≡ true
    → (p' : Process) × (created (x ∷ xs) p ≡ some p')
      × (p'.opened ≡ p.opened + (length xs + 1))
      × ((close_syslog p').closed ≡ p.closed ++ ((p.opened + length xs) ∷ []))
unfolding close_syslog
writers_leak x xs p u = (logged (x ∷ xs) p, created-logged xs x p u, omega arith, refl)
