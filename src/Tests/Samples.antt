-- ===== src/Tests/Samples.antt =====
-- Concrete parameters for the tests: a JSON library, a registry, an SQL database, connections.
use libcluster.Prelude.{ℕ, ◌+◌, true, false, Option, none, some, List, [], ◌∷◌, if◌then◌else◌}
use libcluster.Prelude.Int.{ℤ, pos, negsuc}
use libcluster.Prelude.Bytes.{Bytes, strcmp_eq}
use libcluster.Process.{
  live, null, free, writing, success, ok, ClusterType, fork_child, Cluster, World,
}
use libcluster.Jansson.{Jansson}
use libcluster.Etcd.Client.{reply, EtcdClient}
use libcluster.Etcd.Directory.{value_key}
use libcluster.Sql.Client.{SqlClient}
use libcluster.Tally.Member.{Member}

abbrev pub node_a : Bytes
node_a = b'a' ∷ []

abbrev pub node_b : Bytes
node_b = b'b' ∷ []

abbrev pub node_c : Bytes
node_c = b'c' ∷ []

-- Two workers, one, and four.
abbrev pub members : List Member
members =
    record { id = node_a; workers = 2 }
    ∷ record { id = node_b; workers = 1 }
    ∷ record { id = node_c; workers = 4 }
    ∷ []

-- An object is its members, an array its elements.
pub data Doc : Type 0 where
  num : ℤ → Doc
  text : Bytes → Doc
  truth : Doc
  no_members : Doc
  member : Bytes → Doc → Doc → Doc
  no_items : Doc
  item : Doc → Doc → Doc

abbrev doc_get : Doc → Bytes → Option Doc
doc_get (member j v o) k = if strcmp_eq j k then some v else doc_get o k
doc_get _ k = none

abbrev doc_keys : Doc → List Bytes
doc_keys (member j v o) = j ∷ doc_keys o
doc_keys _ = []

abbrev doc_elems : Doc → List Doc
doc_elems (item d ds) = d ∷ doc_elems ds
doc_elems _ = []

abbrev pub json : Jansson
json = record {
  Json = Doc;
  is_object = λ d. elim d [ no_members ↦ true | member j v o ↦ true | _ ↦ false ];
  is_array = λ d. elim d [ no_items ↦ true | item e es ↦ true | _ ↦ false ];
  is_string = λ d. elim d [ text s ↦ true | _ ↦ false ];
  is_true = λ d. elim d [ truth ↦ true | _ ↦ false ];
  object_get = doc_get;
  keys = doc_keys;
  elems = doc_elems;
  string_value = λ d. elim d [ text s ↦ s | _ ↦ [] ];
  integer_value = λ d. elim d [ num n ↦ n | _ ↦ pos 0 ];
  object = no_members;
  object_set = λ o k v. member k v o;
  loads = λ s. elim s [ [] ↦ none | c ∷ cs ↦ some (text (c ∷ cs)) ];
}

abbrev count : ℕ → Doc
count n = member value_key (num (pos n)) no_members

-- The directory of the members, and the same in another order of the keys.
abbrev pub directory : Doc
directory = member node_c (count 4) (member node_a (count 2) (member node_b (count 1) no_members))

abbrev pub shuffled : Doc
shuffled = member node_a (count 2) (member node_c (count 4) (member node_b (count 1) no_members))

-- A registry that holds that directory, and the number of requests to it.
abbrev pub registry : EtcdClient json ℕ
registry = record {
  etcd_connect = λ uri s. (some 1, s);
  etcd_disconnect = λ h s. s + 1;
  etcd_set_verbose = λ h b s. s;
  etcd_dir_create = λ h name s. (none, s + 1);
  etcd_clone = λ h s. (some h, s + 1);
  etcd_dir_open = λ h name s. (some 2, s + 1);
  etcd_dir_close = λ h s. s;
  etcd_dir_get = λ h s. ok (reply directory, s + 1);
  etcd_dir_wait = λ h recursive s. (pos 0, s + 1);
  etcd_key_set_ttl = λ h k v ttl must_exist s. (pos 0, s + 1);
  etcd_key_delete = λ h k s. (pos 0, s + 1);
  pthread_create = λ s. (true, s);
}

-- A database that holds the members as rows, and the number of statements to it.
abbrev pub database : SqlClient ℕ
database = record {
  sql_connect = λ uri s. (some 1, s);
  sql_disconnect = λ h s. s;
  sql_execute = λ h q s. (pos 0, s + 1);
  sql_perform = λ h f s. f s;
  sql_migrate = λ h s. (pos 0, s);
  sql_query = λ h q s. (some ((node_a, pos 2) ∷ (node_b, pos 1) ∷ (node_c, pos 4) ∷ []), s + 1);
  time = λ s. pos 1000;
  pthread_create = λ s. (true, s);
}

-- A connection of instance "b", with one worker, a callback, and no membership yet.
abbrev pub connection : ClusterType → Cluster
connection kind = record {
  kind = kind;
  flags = record { joined = false; leaving = false; verbose = false; passive = false };
  forkmode = fork_child;
  instid = live node_b;
  key = live (b'k' ∷ []);
  env = live (b'e' ∷ []);
  registry = live (b'r' ∷ []);
  partition = null;
  inst_index = negsuc 0;
  inst_threads = pos 1;
  total_threads = pos 0;
  logger = false;
  balancer = true;
  ttl = pos 120;
  refresh = pos 30;
  etcd_root = none;
  etcd_clusterdir = none;
  etcd_partitiondir = none;
  etcd_envdir = some 2;
  pingdb = none;
  balancedb = some 1;
  jobdb = none;
  ping_thread = false;
  balancer_thread = false;
}

abbrev pub world : Cluster → World ℕ
world c = record { cluster = c; lock = free; errno = success; calls = []; server = 0 }

-- The same with the write lock held.
abbrev pub held : Cluster → World ℕ
held c = record { cluster = c; lock = writing; errno = success; calls = []; server = 0 }

-- Joined, with both threads.
abbrev pub joined_connection : ClusterType → Cluster
joined_connection kind = record (connection kind) {
  flags = record { joined = true; leaving = false; verbose = false; passive = false };
  ping_thread = true;
  balancer_thread = true;
}
