-- ===== src/Slots.antt =====
-- The slots of the accept loop in src/main.cpp: which slot a connection gets, who owns each socket,
-- and when a slot is handed on while its thread may still run. client_t is split: the fields that
-- the handlers use are in Session.antt, those of the accept loop here.
-- A step of this model is one critical section under clients_mutex, or one stretch of code outside
-- it that only its own thread can observe. Sockets are numbered in the order of their accept, from
-- 1 on, and no number is used twice; 0 is what memset leaves in a slot that was never used.
pub mod Count
pub mod Invariant
pub mod Kept
pub mod Safety
use ps3netsrv.Prelude.{
  ℕ, zero, suc, Bool, true, false, not, ◌&&◌, ◌||◌, ltb, ◌==◌, if◌then◌else◌, Option, none, some,
  List, [], ◌∷◌, ◌≡◌, ◌<◌,
}

-- MAX_CLIENTS.
abbrev pub max_clients : ℕ
max_clients = 5

-- `s` is `none` for NO_SOCKET.
pub record Slot : Type 0 where
  pub s : Option ℕ
  pub connected : Bool
  pub ip_addr : ℕ
  pub has_thread : Bool

-- What main knows of its arguments: the bounds of the whitelist.
pub record Whitelist : Type 0 where
  pub start : ℕ
  pub end : ℕ

-- Where the accept loop stands; `cs` is the new socket, `ip` its peer.
pub data Acceptor : Type 0 where
  waiting : Acceptor
  tearing : (i : ℕ) → (old_s : Option ℕ) → (join_old : Bool) → (cs ip : ℕ) → Acceptor
  joining : (i : ℕ) → (join_old : Bool) → (cs ip : ℕ) → Acceptor
  preparing : (i cs ip : ℕ) → Acceptor
  starting : (i cs ip : ℕ) → Acceptor

-- Where the thread of a slot stands: before its first start, in its command loop, in
-- finalize_client with the socket that it took, before it gives the slot back, or at its end.
pub data Thread : Type 0 where
  absent serving : Thread
  closing : (s : Option ℕ) → Thread
  releasing exited : Thread

pub record State : Type 0 where
  pub slots : ℕ → Slot
  pub threads : ℕ → Thread
  pub acceptor : Acceptor
  pub next : ℕ
  pub closed : List ℕ

abbrev pub update {ℓ} : {A : Type ℓ} → (ℕ → A) → ℕ → A → ℕ → A
update f i a j = if j == i then a else f j

-- closesocket, where there is a socket.
abbrev pub close : Option ℕ → List ℕ → List ℕ
close none closed = closed
close (some s) closed = s ∷ closed

-- The first slot of the last `n` that passes the test; `none` is i == MAX_CLIENTS.
pub find_slot : (ℕ → Bool) → ℕ → ℕ → Option ℕ
find_slot test i zero = none
find_slot test i (suc n) = let rest = find_slot test (suc i) n in if test i then some i else rest

unfoldable pub same_client : State → ℕ → ℕ → Bool
same_client st ip i = (st.slots i).connected && ((st.slots i).ip_addr == ip)

pub is_free : State → ℕ → Bool
is_free st i = not (st.slots i).connected

-- A whitelist that starts at 0 admits everyone.
pub is_listed : Whitelist → ℕ → Bool
is_listed w ip = w.start == 0 || (not (ltb ip w.start) && not (ltb w.end ip))

-- Reserves slot `i` for the socket `cs`: what happens to the slot before the lock is dropped.
unfoldable pub reserve : State → ℕ → Option ℕ → Option ℕ → ℕ → State
reserve st i old_s left_s ip =
    let slot = st.slots i in
    record st {
      slots = update st.slots i (record slot { s = left_s; connected = true; has_thread = false });
      acceptor = tearing i old_s slot.has_thread st.next ip;
      next = suc st.next;
    }

-- The connection is refused and its socket closed.
pub refuse : State → State
refuse st = record st { next = suc st.next; closed = st.next ∷ st.closed }

take_free : Whitelist → State → ℕ → State
unfolding find_slot is_free is_listed reserve refuse
take_free w st ip =
    if is_listed w ip
    then elim (find_slot (is_free st) 0 max_clients) [
      | none ↦ refuse st
      | some i ↦ reserve st i none (st.slots i).s ip
    ]
    else refuse st

-- The critical section of the accept loop for a new socket whose peer is `ip`.
unfoldable pub on_accept : Whitelist → State → ℕ → State
unfolding take_free same_client
on_accept w st ip = elim (find_slot (same_client st ip) 0 max_clients) [
  | none ↦ take_free w st ip
  | some i ↦ reserve st i (st.slots i).s none ip
]

-- initialize_client: memset, then NO_SOCKET and connected, unless the buffer cannot be allocated.
abbrev fresh : Bool → Slot
fresh ok = record { s = none; connected = ok; ip_addr = 0; has_thread = false }

-- pthread_join returns when the thread has ended.
unfoldable pub has_ended : Thread → Bool
has_ended absent = true
has_ended exited = true
has_ended _ = false

-- The new socket and address go into the slot and the thread is started; where that fails,
-- finalize_client closes the socket and the slot is given back.
pub start : Bool → ℕ → ℕ → ℕ → State → State
start ok i cs ip st =
    if ok
    then record st {
      slots =
          update st.slots i
            (record { s = some cs; connected = true; ip_addr = ip; has_thread = true });
      threads = update st.threads i serving;
      acceptor = waiting;
    }
    else record st {
      slots =
          update st.slots i
            (record { s = none; connected = false; ip_addr = ip; has_thread = false });
      acceptor = waiting;
      closed = cs ∷ st.closed;
    }

-- The accept loop between two critical sections: close the old socket, join the old thread, make
-- the slot ready, start the new thread. `ok` says whether an allocation or a creation succeeds.
unfoldable pub go_on : Bool → Acceptor → State → State
unfolding start has_ended
go_on ok waiting st = st
go_on ok (tearing i old_s join cs ip) st = record st {
  acceptor = joining i join cs ip;
  closed = close old_s st.closed;
}
go_on ok (joining i join cs ip) st =
    if join && not (has_ended (st.threads i))
    then st
    else record st { acceptor = preparing i cs ip }
go_on ok (preparing i cs ip) st =
    if ok
    then record st { slots = update st.slots i (fresh true); acceptor = starting i cs ip }
    else record st {
      slots = update st.slots i (fresh false);
      acceptor = waiting;
      closed = cs ∷ st.closed;
    }
go_on ok (starting i cs ip) st = start ok i cs ip st

-- The thread of slot `i` leaves its loop, which it may do at any time; that the shutdown of its socket
-- makes its recv fail is not modelled. In the end finalize_client takes the socket under the lock, closes
-- it, and the last critical section of client_thread gives the slot back.
unfoldable pub wind_up : ℕ → Thread → State → State
wind_up i absent st = st
wind_up i serving st = record st {
  slots = update st.slots i (record (st.slots i) { s = none });
  threads = update st.threads i (closing (st.slots i).s);
}
wind_up i (closing s) st = record st {
  threads = update st.threads i releasing;
  closed = close s st.closed;
}
wind_up i releasing st = record st {
  slots = update st.slots i (record (st.slots i) { connected = false });
  threads = update st.threads i exited;
}
wind_up i exited st = st

-- One step of the server: a new connection, the accept loop, or the thread of a slot.
pub data Step (w : Whitelist) (st : State) : State → Type 0 where
  arrives : (ip : ℕ) → st.acceptor ≡ waiting → Step w st (on_accept w st ip)
  loop_goes_on : (ok : Bool) → Step w st (go_on ok st.acceptor st)
  thread_winds_up : (i : ℕ) → i < max_clients → Step w st (wind_up i (st.threads i) st)

-- memset(clients, 0, sizeof(clients)).
abbrev pub init : State
init = record {
  slots = λ _. record { s = some 0; connected = false; ip_addr = 0; has_thread = false };
  threads = λ _. absent;
  acceptor = waiting;
  next = 1;
  closed = [];
}

pub data Reach (w : Whitelist) : State → Type 0 where
  boot : Reach w init
  step : {st st' : State} → Reach w st → Step w st st' → Reach w st'
