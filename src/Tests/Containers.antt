-- ===== src/Tests/Containers.antt =====
-- Runs of a task with a mount and a task before it, in a container and as a process.
use tork.Prelude.{none, ℕ, false, some, List, [], ◌∷◌, ◌≡◌, refl, insert, ◌≢◌, arith, eq_iff}
use tork.Task.{Mount, Task, nil, cons, to_node}
use tork.Eval
use tork.Runtimes.Host.{Resource, Host, Answers}
use tork.Runtimes.Sides.{sharing}
use tork.Runtimes.Docker.{
  lookup, container_mounts, parse_cpus, parse_memory, parse_gpus, with_workdir,
}
use tork.Runtimes.Docker.Run
use tork.Runtimes.Docker.Run.{DockerRuntime}
use tork.Runtimes.Docker.Containers.{taken-run}
use tork.Runtimes.Mounts.{
  Mounter, MultiMounter, multi_mount, multi_unmount, volume_mount, volume_unmount,
}
use tork.Runtimes.Mounts.Chosen.{multi_unmount-multi_mount}
use tork.Runtimes.Tidy.{taken, given_back}
use tork.Runtimes.Shell.Environ.{Var}
use tork.Tests.Samples.{done_row}

-- Every call succeeds with exit code 0.
abbrev answers : Answers
answers = record {
  now = λ n. n;
  uuid = λ n. "u";
  answer = λ es n args. Eval.Result.ok "0";
  listed = λ es n. Eval.Result.ok [];
  mounted = λ es m. Eval.Result.ok m;
}

abbrev h : Host
h = record { trace = []; running = []; images = []; readings = 0; drawn = 0 }

abbrev docker : DockerRuntime
docker = record {
  answers = answers;
  parsers = record {
    cpus = λ s. Eval.Result.ok 1;
    memory = λ s. Eval.Result.ok 1;
    gpus = λ s. Eval.Result.ok [];
  };
  create = λ es spec. Eval.Result.ok "c1";
  privileged = false;
  image_ttl = 10;
}

abbrev volume : Mount
volume = record { id = ""; type = "volume"; source = ""; target = "/data" }

abbrev t : Task
t = record done_row {
  info = record done_row.info { image = "alpine"; mounts = volume ∷ [] };
  pre = cons (to_node done_row) nil;
}

-- A weight that counts containers twice.
abbrev weight : Resource → ℕ
weight (Resource.container c) = 2
weight (Resource.mount m) = 1
weight (Resource.directory d) = 1

-- Two containers, and three mounts: one of the task, and one for each run.
taken-docker : taken weight (Run.run docker t h).1.trace ≡ 7
unfolding Run.run taken sharing container_mounts parse_cpus parse_memory parse_gpus with_workdir
    insert
taken-docker = refl

taken-run_example :
    taken weight (Run.run docker t h).1.trace ≡ given_back weight (Run.run docker t h).1.trace
taken-run_example = taken-run weight docker t h refl

-- A=1 of the task, and B=2 of the host.
abbrev vars : List Var
vars = Var.own (65 ∷ []) (49 ∷ []) ∷ Var.foreign (66 ∷ []) (50 ∷ []) ∷ []

abbrev volumes : Mounter
volumes = record { mount = volume_mount answers; unmount = volume_unmount answers }

abbrev mounters : MultiMounter
mounters = record { mounters = ("volume", volumes) ∷ []; mapping = [] }

abbrev named : Mount
named = record volume { id = "m1" }

abbrev made : Mount
made = record named { source = "u" }

is_named : named.id ≢ ""
is_named same = ground (arith, eq_iff "m1" "", same)

is_known : lookup named.type mounters.mounters ≡ some volumes
unfolding lookup
is_known = refl

is_new : lookup named.id mounters.mapping ≡ none
unfolding lookup
is_new = refl

multi_unmount-multi_mount_example :
    ((multi_mount named mounters).0 ≡ volumes.mount named)
    × ((multi_unmount made (multi_mount named mounters).1).0 ≡ volumes.unmount made)
    × ((multi_unmount made (multi_mount named mounters).1).1 ≡ mounters)
multi_unmount-multi_mount_example =
    multi_unmount-multi_mount named made volumes mounters is_named is_known is_new refl
