-- ===== src/Detect.antt =====
-- The runtime detection of cmd/cray/runtime_detect.go. The probes are parameters; one that is nil is
-- none.
pub mod Auto
use c_ray.Prelude.{Bool, List, Option, [], false, if◌then◌else◌, none, some, true, ◌&&◌, ◌∷◌}
use c_ray.Result.{Result, err, ok, panic, ◌>>=◌}
use c_ray.Text.Basic.{Text, codes, contains, is_empty}

pub data Backend : Type 0 where
  crio containerd docker : Backend

pub record RuntimeDetector : Type 0 where
  pub is_socket : Option (Text → Bool)
  pub supports_cri : Option (Text → Bool)
  pub supports_docker : Option (Text → Bool)
  pub supports_containerd : Option (Text → Bool)

pub data DetectError : Type 0 where
  auto_detection_failed : DetectError

-- `d.f != nil && d.f(sock)`.
abbrev pub probe : Option (Text → Bool) → Text → Bool
probe none sock = false
probe (some f) sock = f sock

abbrev pub crio_socket_candidates : List Text
crio_socket_candidates = codes "/run/crio/crio.sock" ∷ codes "/var/run/crio/crio.sock" ∷ []

abbrev pub containerd_socket_candidates : List Text
containerd_socket_candidates =
    codes "/run/containerd/containerd.sock" ∷ codes "/var/run/containerd/containerd.sock" ∷ []

abbrev pub docker_socket_candidates : List Text
docker_socket_candidates = codes "/var/run/docker.sock" ∷ codes "/run/docker.sock" ∷ []

unfoldable pub looks_like_crio_socket : Text → Bool
looks_like_crio_socket = contains (codes "crio")

unfoldable pub infer_runtime_from_path : Text → Backend
infer_runtime_from_path sock =
    if looks_like_crio_socket sock
    then crio
    else if contains (codes "docker") sock
    then docker
    else if contains (codes "containerd") sock
    then containerd
    else containerd

-- detectExplicit, which has no error.
unfoldable pub detect_explicit : RuntimeDetector → Text → Backend × Text
detect_explicit d sock =
    if probe d.is_socket sock
    then if probe d.supports_cri sock
      then if looks_like_crio_socket sock
        then (crio, sock)
        else if probe d.supports_containerd sock
        then (containerd, sock)
        else (crio, sock)
      else if probe d.supports_docker sock
      then (docker, sock)
      else if probe d.supports_containerd sock
      then (containerd, sock)
      else (infer_runtime_from_path sock, sock)
    else (infer_runtime_from_path sock, sock)

-- One loop of detectAuto: the first candidate that is a socket and passes the test. It calls isSocket
-- without a test for nil.
unfoldable pub first_socket :
    Option (Text → Bool) → (Text → Bool) → List Text → Result DetectError (Option Text)
first_socket is_socket test [] = ok none
first_socket none test (sock ∷ socks) = panic
first_socket (some is_socket) test (sock ∷ socks) = elim (is_socket sock && test sock) [
  | true ↦ ok (some sock)
  | false ↦ first_socket (some is_socket) test socks
]

-- A loop that found a socket returns; otherwise the next one runs.
abbrev pub or_next :
    Backend
    → Option Text
    → Result DetectError (Backend × Text)
    → Result DetectError (Backend × Text)
or_next backend none next = next
or_next backend (some sock) next = ok (backend, sock)

abbrev pub try_sockets :
    RuntimeDetector
    → Backend
    → (Text → Bool)
    → List Text
    → Result DetectError (Backend × Text)
    → Result DetectError (Backend × Text)
try_sockets d backend test socks next = do
  found ← first_socket d.is_socket test socks
  or_next backend found next

-- detectAuto.
unfoldable pub detect_auto : RuntimeDetector → Result DetectError (Backend × Text)
unfolding first_socket
detect_auto d = try_sockets d crio (probe d.supports_cri) crio_socket_candidates (
    try_sockets d containerd (λ sock. probe d.supports_containerd sock && probe d.supports_cri sock)
      containerd_socket_candidates
      (try_sockets d docker (probe d.supports_docker) docker_socket_candidates (
        try_sockets d containerd (probe d.supports_containerd) containerd_socket_candidates
          (err auto_detection_failed))))

-- detectRuntimeWith.
unfoldable pub detect_runtime_with : RuntimeDetector → Text → Result DetectError (Backend × Text)
unfolding detect_auto detect_explicit
detect_runtime_with d sock = if is_empty sock then detect_auto d else ok (detect_explicit d sock)
