-- ===== src/Network.antt =====
-- src/network.cpp and src/request.h: the requests that contexts send to the network thread through a
-- socket pair. A request goes into the pipe as the byte of its length, the byte of its type and its
-- body. The pipe is not blocking; what `recv` does is a script with one turn for each call.
pub mod Order
pub mod Progress
pub mod Dispatch
mod Examples
use node_lua.Common.{
  ℕ, zero, suc, ◌+◌, ◌-◌, min, List, [], ◌∷◌, ◌++◌, Bool, true, false, leb, ◌==◌, ◌||◌,
  if◌then◌else◌, length, take, drop,
}

-- `m_type`, and the body of `m_length` bytes.
pub record Request : Type 0 where
  pub type : ℕ
  pub body : List ℕ

-- send_request: the bytes that go into the pipe.
abbrev pub send_request : Request → List ℕ
send_request r = length r.body ∷ r.type ∷ r.body

-- A call of `recv`: some bytes have come into the pipe since the last one, and it returns all that it
-- is asked for or `suc most` of them, if so many are there, and EAGAIN if there are none; or it returns
-- another error or the end of the stream.
pub data Turn : Type 0 where
  ready : List ℕ → ℕ → Turn
  broken : Turn

-- How recv_request returns, or where it is when the script ends: what it needs of a request and what it
-- has read.
pub data Verdict : Type 0 where
  keeps closes : Verdict
  within : ℕ → List ℕ → Verdict

-- What was handed to `process_request`, in order, and what is left.
pub record After : Type 0 where
  pub handled : List Request
  pub verdict : Verdict
  pub unread : List ℕ
  pub script : List Turn

-- The request whose type and body have been read.
abbrev pub to_request : List ℕ → Request
to_request [] = record { type = 0; body = [] }
to_request (t ∷ body) = record { type = t; body = body }

abbrev pub also_handled : Request → After → After
also_handled r a = record a { handled = r ∷ a.handled }

abbrev pub also_first : List Request → After → After
also_first rs a = record a { handled = rs ++ a.handled }

-- Whether process_request got REQUEST_EXIT, whose handler closes the poll handle.
abbrev pub has_exit : List Request → Bool
has_exit [] = false
has_exit (r ∷ rs) = (r.type == 0) || has_exit rs

-- `m_cpu_count` bounds the requests of one call.
module _ (cpu_count : ℕ) where
  -- The loop of recv_request, with `need_read`, the bytes that it has read of the request, and
  -- `processed`.
  pub recv_loop : ℕ → List ℕ → ℕ → List ℕ → List Turn → After
  recv_loop need_read filled processed unread [] = record {
    handled = [];
    verdict = within need_read filled;
    unread = unread;
    script = [];
  }
  recv_loop need_read filled processed unread (broken ∷ script) = record {
    handled = [];
    verdict = closes;
    unread = unread;
    script = script;
  }
  recv_loop zero filled processed unread (ready arrived most ∷ script) = elim (unread ++ arrived) [
    | [] ↦ record { handled = []; verdict = keeps; unread = []; script = script }
    | m_length ∷ more ↦ recv_loop (suc m_length) [] processed more script
  ]
  recv_loop (suc need) filled processed unread (ready arrived most ∷ script) =
      let readable = unread ++ arrived in
      let nbytes = min (suc need - length filled) (suc most) in
      let filled' = filled ++ take nbytes readable in
      let more = drop nbytes readable in
      elim (length filled' == suc need) [
        | false ↦ recv_loop (suc need) filled' processed more script
        | true ↦ also_handled (to_request filled') (elim (leb cpu_count (processed + 1)) [
          | true ↦ record { handled = []; verdict = keeps; unread = more; script = script }
          | false ↦ recv_loop zero [] (processed + 1) more script
        ])
      ]

  pub recv_request : List ℕ → List Turn → After
  unfolding recv_loop
  recv_request unread script = recv_loop zero [] 0 unread script

  -- on_request_polled_in, as often as the poll handle finds the pipe readable: one call takes at least one
  -- turn. The handle is closed, and polled no more, when recv_request wants it closed and when
  -- request_exit has closed it.
  pub polls : ℕ → List ℕ → List Turn → After
  unfolding recv_request
  polls zero unread script = record {
    handled = [];
    verdict = keeps;
    unread = unread;
    script = script;
  }
  polls (suc fuel) unread script =
      let a = recv_request unread script in
      elim a.verdict [
        | keeps ↦ elim (has_exit a.handled) [
          | true ↦ record a { verdict = closes }
          | false ↦ also_first a.handled (polls fuel a.unread a.script)
        ]
        | closes ↦ a
        | within need_read filled ↦ a
      ]

  pub serve_pipe : List ℕ → List Turn → After
  unfolding polls
  serve_pipe unread script = polls (suc (length script)) unread script
