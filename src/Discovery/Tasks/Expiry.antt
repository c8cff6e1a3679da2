-- ===== src/Discovery/Tasks/Expiry.antt =====
-- The rounds of `Discovery::RunActivityTask`: which publishers are forgotten.
use ign_transport_git.Base.{
  ℕ, Bool, ◌≡◌, refl, ap, true, false, ◌||◌, none, some, [], ◌∷◌, List, arith, Bool-cases, inl, inr,
  if◌then◌else◌, Text, text_eq,
}
use ign_transport_git.Base.Map.{Map, find, erase, find-erase}
use ign_transport_git.TransportTypes.{all, MsgType, msg, srv}
use ign_transport_git.TopicStorage.{del_addresses_by_proc}
use ign_transport_git.TopicStorage.Spec.{publishers, publishers-del_addresses_by_proc}
use ign_transport_git.TopicStorage.Invariant as Store
use ign_transport_git.TopicStorage.Invariant.{del_addresses_by_proc-IsValid}
use ign_transport_git.Discovery.{Discovery, Event, called, disconnection, storage}
use ign_transport_git.Discovery.Tasks.{is_expired, expire, activity_loop, run_activity_round}

-- The processes that have expired, in the order of the map.
unfoldable pub silent : ℕ → Map ℕ → Discovery → List Text
silent now [] d = []
silent now ((p, last) ∷ entries) d =
    if is_expired now last d then p ∷ silent now entries d else silent now entries d

-- One disconnection of each.
unfoldable pub farewells : List Text → List Event
farewells [] = []
farewells (p ∷ ps) = called (disconnection msg) [] [] [] p [] all ∷ farewells ps

unfoldable pub is_among : Text → List Text → Bool
is_among p' [] = false
is_among p' (p ∷ ps) = text_eq p p' || is_among p' ps

abbrev forget : Text → Discovery → Discovery
forget p d = record d {
  info_msg = (del_addresses_by_proc p d.info_msg).0;
  info_srv = (del_addresses_by_proc p d.info_srv).0;
  activity = erase p d.activity;
}

-- The state once the publishers are forgotten one after the other.
forget_all : List Text → Discovery → Discovery
forget_all [] d = d
forget_all (p ∷ ps) d = forget_all ps (forget p d)

silent-forget :
    (now : ℕ) (p : Text) (entries : Map ℕ) (d : Discovery)
    → silent now entries (forget p d) ≡ silent now entries d
unfolding silent
silent-forget now p [] d = refl
silent-forget now p ((q, last) ∷ entries) d = rw (silent-forget now p entries d)

expire_lem :
    (p : Text) (d : Discovery)
    → d.disconnection_cb ≡ true
    → expire p d ≡ some (forget p d, called (disconnection msg) [] [] [] p [] all ∷ [])
unfolding expire
expire_lem p d set =
    ap
      (λ b.
        if b then some (forget p d, called (disconnection msg) [] [] [] p [] all ∷ []) else none)
      set

activity_loop_lem :
    (now : ℕ) (entries : Map ℕ) (d : Discovery)
    → d.disconnection_cb ≡ true
    → activity_loop now entries d
      ≡ some (forget_all (silent now entries d) d, farewells (silent now entries d))
unfolding activity_loop forget_all farewells silent
activity_loop_lem now [] d set = refl
activity_loop_lem now ((p, last) ∷ entries) d set = elim (Bool-cases (is_expired now last d)) [
  | inl e ↦ rw e (
      rw (
        expire_lem p d set,
        activity_loop_lem now entries (forget p d) set,
        silent-forget now p entries d,
      ))
  | inr e ↦ rw e (activity_loop_lem now entries d set)
]

-- The storages, each in order.
abbrev pub HasValidStorages : Discovery → Type 0
HasValidStorages d = (kind : MsgType) → Store.IsValid (storage kind d)

forget-HasValidStorages :
    (p : Text) (d : Discovery) → HasValidStorages d → HasValidStorages (forget p d)
forget-HasValidStorages p d v msg = del_addresses_by_proc-IsValid p d.info_msg (v msg)
forget-HasValidStorages p d v srv = del_addresses_by_proc-IsValid p d.info_srv (v srv)

publishers-forget :
    (kind : MsgType) (p t p' : Text) (d : Discovery)
    → HasValidStorages d
    → publishers t p' (storage kind (forget p d))
      ≡ (if text_eq p p' then [] else publishers t p' (storage kind d))
publishers-forget msg p t p' d v = publishers-del_addresses_by_proc p t p' d.info_msg (v msg).0
publishers-forget srv p t p' d v = publishers-del_addresses_by_proc p t p' d.info_srv (v srv).0

publishers-forget_all :
    (kind : MsgType) (ps : List Text) (t p' : Text) (d : Discovery)
    → HasValidStorages d
    → publishers t p' (storage kind (forget_all ps d))
      ≡ (if is_among p' ps then [] else publishers t p' (storage kind d))
unfolding forget_all is_among
publishers-forget_all kind [] t p' d v = refl
publishers-forget_all kind (p ∷ ps) t p' d v =
    rw
      (
        publishers-forget_all kind ps t p' (forget p d) (forget-HasValidStorages p d v),
        publishers-forget kind p t p' d v,
      )
      (ground arith)

activity-forget_all :
    (ps : List Text) (p' : Text) (d : Discovery)
    → find p' (forget_all ps d).activity ≡ (if is_among p' ps then none else find p' d.activity)
unfolding forget_all is_among
activity-forget_all [] p' d = refl
activity-forget_all (p ∷ ps) p' d =
    rw (activity-forget_all ps p' (forget p d), find-erase p' p d.activity) (ground arith)

-- A round forgets the processes that have expired and no others. Where the storages are well formed and a
-- disconnection callback is set, the round ends; the callback is called once for each process that has
-- expired, in the order of the activity map: the time since it was heard of, in seconds as a double and
-- cast to whole milliseconds, is above the interval. Afterwards neither
-- storage has a publisher of those processes on any topic, nor the map an entry, and the publishers
-- and entries of all other processes are what they were.
pub run_activity_round_lem :
    (now : ℕ) (d : Discovery)
    → HasValidStorages d
    → d.disconnection_cb ≡ true
    → let gone = silent now d.activity d in
      (d' : Discovery) × (run_activity_round now d ≡ some (d', farewells gone))
      × ((kind : MsgType) (t p' : Text)
          → publishers t p' (storage kind d')
            ≡ (if is_among p' gone then [] else publishers t p' (storage kind d)))
      × ((p' : Text)
          → find p' d'.activity ≡ (if is_among p' gone then none else find p' d.activity))
unfolding run_activity_round
run_activity_round_lem now d v set = (
  forget_all (silent now d.activity d) d,
  activity_loop_lem now d.activity d set,
  λ kind t p'. publishers-forget_all kind _ t p' d v,
  λ p'. activity-forget_all _ p' d,
)
