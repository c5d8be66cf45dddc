-- ===== src/Tests/Threads.antt =====
-- Runs of the application's threads over one connection.
use eloquence.Base.{ℕ, ◌≡◌, refl, true, false}
use eloquence.Host.Connection.Threads.{
  System, Reach, start, later, pick, bridge, enter, reconnect, acquire, send, send_fails, receive,
  receive_fails, clear, got,
}
use eloquence.Host.Connection.Threads.Matching.{Reach-matches}

-- A thread connects, calls, and has its response.
served : (x : System) × Reach x × (x.pc 0 ≡ got 1 1 true)
served = (
  _,
  later
      (later
        (later
          (later (later (later start (pick 0 (reconnect refl refl))) (pick 0 (enter refl)))
            (pick 0 (acquire refl)))
          (pick 0 send))
        (bridge refl))
      (pick 0 (receive refl)),
  refl,
)

Reach-matches_example : ◌≡◌ {A = ℕ} 1 1
Reach-matches_example = Reach-matches served.0 0 1 1 served.1 served.2

-- Two threads fail, the second one clears `connected` first, a third connects anew, and then the first one
-- clears `connected` late: the new connection is given up although it works.
lost : (x : System) × Reach x × (x.shared.intact ≡ true) × (x.shared.connected ≡ false)
lost = (
  _,
  later
      (later
        (later
          (later
            (later
              (later
                (later
                  (later (later (later start (pick 0 (reconnect refl refl))) (pick 0 (enter refl)))
                    (pick 1 (enter refl)))
                  (pick 0 (acquire refl)))
                (pick 0 send_fails))
              (pick 1 (acquire refl)))
            (pick 1 send_fails))
          (pick 1 clear))
        (pick 2 (reconnect refl refl)))
      (pick 0 clear),
  refl,
  refl,
)

-- A thread's call fails while its response is under way. Another thread that had passed the test of `connected`
-- goes on over the same socket, and takes the response to the first one's request for its own.
crossed : (x : System) × Reach x × (x.pc 1 ≡ got 2 1 false)
crossed = (
  _,
  later
      (later
        (later
          (later
            (later
              (later
                (later
                  (later (later (later start (pick 0 (reconnect refl refl))) (pick 0 (enter refl)))
                    (pick 1 (enter refl)))
                  (pick 0 (acquire refl)))
                (pick 0 send))
              (pick 0 receive_fails))
            (bridge refl))
          (pick 1 (acquire refl)))
        (pick 1 send))
      (pick 1 (receive refl)),
  refl,
)
