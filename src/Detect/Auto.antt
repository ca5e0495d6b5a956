-- ===== src/Detect/Auto.antt =====
-- What the automatic detection finds.
use c_ray.Detect.{
  Backend, DetectError, RuntimeDetector, auto_detection_failed, containerd,
  containerd_socket_candidates, crio, crio_socket_candidates, detect_auto, docker,
  docker_socket_candidates, first_socket, probe, try_sockets,
}
use c_ray.Prelude.{
  Bool, Bool-cases, List, Option, [], ap, arith, false, inl, inr, none, refl, some, true, ◌&&◌,
  ◌++◌, ◌||◌, ◌∷◌, ◌≡◌, ◌⊎◌,
}
use c_ray.Result.{Result, err, ok}
use c_ray.Text.Basic.{Text}
use c_ray.Text.Split.{split}

module _ (is_socket : Text → Bool) where
  -- A candidate that is a socket and passes the test.
  abbrev pub is_found : (Text → Bool) → List Text → Bool
  is_found test [] = false
  is_found test (sock ∷ socks) = is_socket sock && test sock || is_found test socks

  -- The loop finds a socket that passes the test, with no candidate before it that does.
  abbrev pub IsFirst : (Text → Bool) → List Text → Text → Type 0
  IsFirst test socks sock =
      (before : List Text) × (after : List Text) × (socks ≡ before ++ sock ∷ after)
      × (is_socket sock ≡ true)
      × (test sock ≡ true)
      × (is_found test before ≡ false)

  first_socket-cases :
      (test : Text → Bool) (socks : List Text)
      → (first_socket (some is_socket) test socks ≡ ok none) × (is_found test socks ≡ false)
        ⊎ ((sock : Text) × (first_socket (some is_socket) test socks ≡ ok (some sock))
            × IsFirst test socks sock)
  unfolding first_socket
  first_socket-cases test [] = inl (refl, refl)
  first_socket-cases test (s ∷ socks) = elim (Bool-cases (is_socket s && test s)) [
    | inl hit ↦ inr (s, rw (hit, first_socket), ([], socks, refl, ground arith, ground arith, refl))
    | inr miss ↦ elim (first_socket-cases test socks) [
      | inl (e, no_more) ↦ inl (rw (miss, first_socket) e, rw miss no_more)
      | inr (sock, e, (before, after, split, socket, passes, first)) ↦ inr (
        sock,
        rw (miss, first_socket) e,
        (s ∷ before, after, ap (◌∷◌ s) split, socket, passes, rw miss first),
      )
    ]
  ]

  -- The four searches of detectAuto, in their order.
  module _ (cri containerd_api docker_api : Option (Text → Bool)) where
    abbrev pub detector : RuntimeDetector
    detector = record {
      is_socket = some is_socket;
      supports_cri = cri;
      supports_docker = docker_api;
      supports_containerd = containerd_api;
    }

    -- The searches of the automatic detection, from the first to the last: the backend, its test and
    -- its candidates.
    abbrev pub Search : Type 0
    Search = Backend × (Text → Bool) × List Text

    abbrev pub searches : List Search
    searches =
        (crio, probe cri, crio_socket_candidates)
        ∷ (
          containerd,
          (λ sock. probe containerd_api sock && probe cri sock),
          containerd_socket_candidates,
        )
        ∷ (docker, probe docker_api, docker_socket_candidates)
        ∷ (containerd, probe containerd_api, containerd_socket_candidates)
        ∷ []

    abbrev pub run : List Search → Result DetectError (Backend × Text)
    run [] = err auto_detection_failed
    run ((backend, test, socks) ∷ rest) = try_sockets detector backend test socks (run rest)

    -- No candidate of the searches is a socket that passes the search's test.
    abbrev pub NoneFound : List Search → Type 0
    NoneFound [] = Unit
    NoneFound ((backend, test, socks) ∷ rest) = (is_found test socks ≡ false) × NoneFound rest

    -- The answer is the first candidate that passes in the first search that has one.
    pub data FoundIn : List Search → Backend → Text → Type 0 where
      in_search :
          {backend : Backend} {test : Text → Bool} {socks : List Text} {rest : List Search}
          {sock : Text}
          → IsFirst test socks sock
          → FoundIn ((backend, test, socks) ∷ rest) backend sock
      in_later :
          {b backend : Backend} {test : Text → Bool} {socks : List Text} {rest : List Search}
          {sock : Text}
          → is_found test socks ≡ false
          → FoundIn rest backend sock
          → FoundIn ((b, test, socks) ∷ rest) backend sock

    run-cases :
        (ss : List Search)
        → (run ss ≡ err auto_detection_failed) × NoneFound ss
          ⊎ ((backend : Backend) × (sock : Text) × (run ss ≡ ok (backend, sock))
              × FoundIn ss backend sock)
    run-cases [] = inl (refl, tt)
    run-cases ((backend, test, socks) ∷ rest) = elim (first_socket-cases test socks) [
      | inr (sock, e, first) ↦ inr (backend, sock, rw e refl, in_search first)
      | inl (e, no_one) ↦ elim (run-cases rest) [
        | inl (f, none_found) ↦ inl (rw e f, (no_one, none_found))
        | inr (b, sock, f, found) ↦ inr (b, sock, rw e f, in_later no_one found)
      ]
    ]

    -- detectAuto, of a detector with an isSocket: either it fails and in none of its four searches a
    -- candidate is a socket that passes, or it gives the first candidate that does, of the first
    -- search that has one. The searches are CRI-O's sockets that answer the CRI, containerd's that
    -- answer both containerd and the CRI, docker's, and containerd's again without the CRI.
    pub detect_auto-cases :
        (detect_auto detector ≡ err auto_detection_failed) × NoneFound searches
        ⊎ ((backend : Backend) × (sock : Text) × (detect_auto detector ≡ ok (backend, sock))
            × FoundIn searches backend sock)
    unfolding detect_auto
    detect_auto-cases = run-cases searches
