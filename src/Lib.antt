-- ===== src/Lib.antt =====
-- libcluster: a model of the C library libcluster, by which the instances of an application agree
-- on which workers of a cluster are whose, with theorems about it.
--
-- The program. An application makes a connection (CLUSTER), sets its parameters and joins. What
-- joining means depends on the registry's URI: a static cluster has its layout in the configuration
-- (engines/static.c); with an "http:" URI the instances meet in a directory of an etcd server
-- (engines/etcd.c over libetcd/); with a URI of libsql, in a database table (engines/sql.c). In the
-- latter two each instance writes its identifier and its number of workers, reads those of all
-- members in the order of their identifiers, and adds up the workers before its own: that sum is
-- the index of its first worker. The application hears of a changed place by a callback. A
-- connection has a read-write lock, a thread that renews its entry and one that re-balances, and
-- handlers around fork(). Jobs (job.c) are units of work with an identifier, a parent and a
-- progress.
--
-- The files.
--   Prelude           shared: Boolean tests, lists measured by native numbers, signed integers, C
--                     strings and strcmp, string literals, what "%d" prints
--   Process           faults, heap strings, the lock as one thread sees it, errno, struct cluster_struct
--                     and the other types of p_libcluster.h and libcluster.h, the monad of the
--                     operations; cluster_rdlock_, cluster_wrlock_, cluster_unlock_ of cluster.c
--   Cluster           cluster.c: Settings (the setters), Registry (cluster_set_registry), Queries
--                     (getters, cluster_index, cluster_total, cluster_workers, cluster_state,
--                     cluster_rebalanced_)
--   Membership        cluster.c: joining, leaving and destroying over an interface (Engine) that the
--                     engines fill; Requests (the application's calls as data), with Soundness, Frozen
--                     and Joined about them
--   Clusters          cluster.c: all clusters of a process. Links (the doubly linked list; Laws and
--                     Listed about it), Store (the list with its lock, the blocks of the clusters,
--                     cluster_list_wrlock_ and its kin), Create (cluster_create and cluster_destroy;
--                     Listed, Ended, Discarded and Undone
--                     about them), Fork (cluster_fork_prepare_, _child_, _parent_;
--                     Visits and Hooks about them)
--   Threads           the loops of the two threads of a member, which engines/etcd.c and engines/sql.c
--                     share but for what they call: passes, and a step relation for both threads;
--                     Steps, Ending and Period about them
--   Static            engines/static.c; Static/Bounds about it
--   Tally             the loop that engines/etcd.c and engines/sql.c run over the members; Layout, the
--                     table of a cluster, described apart from the code; Partition, the loop against
--                     the table
--   Etcd              engines/etcd.c: Keys (the sorted keys), Directory (a pass over a directory),
--                     Client (the interface of libetcd that the engine uses), Balance, Session (join,
--                     leave, rejoin, the ends of the threads), Fork (the handlers), Threads (what the
--                     loops call), Accounts (the handles that a member has open)
--   Sql               engines/sql.c: Client (the interface of libsql, and the statements), Balance (own
--                     row, re-balancing), Session (join, leave, rejoin, the ends of the threads),
--                     Fork (the handlers), Threads (what the loops call), Migration (the versions of
--                     the schema)
--   Libetcd           libetcd/: Path (the relative URI of a directory, dir.c), Directory (etcd_dir_get
--                     and the test of etcd_dir_open, dir.c), Key (the encoding of a value, key.c),
--                     Payload (etcd_payload_, connect.c), Http (classifying responses, connect.c),
--                     Requests (handles, and the requests made from them, connect.c), Calls (what is
--                     sent for directories and keys, dir.c and key.c), Handles (handles by their
--                     addresses: the client of the etcd engine; Accounts, Session and Destroyed
--                     about it)
--   Jansson           the JSON library, a parameter
--   Logging           cluster_logf_ and its kin, cluster.c, and the callbacks for libsql, engines/sql.c
--   Job               job.c; Identity and Progress about it; Log (the same calls with their log lines,
--                     and those that only log), with Lines about it
--   ClusterTest       util/cluster-test.c, the program that joins and leaves a cluster, over all the
--                     parts that it calls; Layout (what the options ask for), Calls, Leaving and Run
--                     about it
--   Tests             concrete parameters and runs
-- A definition is named after its C function, without the underscore at the end of the names of
-- functions that are not public.
--
-- How it is modelled. An operation on a connection takes a world (the cluster, its lock, errno, the
-- callbacks so far, the registry's side) and gives a value and a world, or a fault: where C leaves
-- the behaviour undefined, a lock is taken twice by one thread, memory is freed twice, or a thread
-- is waited for that has not been told to leave. Pointers to heap text are NULL, text, or freed.
-- Whether an allocation succeeds is an argument. int is the integers with a fault on overflow,
-- size_t is a number modulo 2^64. libcurl, liburi, libuuid, libsql, pthread_create and Jansson are
-- not modelled: what they answer is an argument or a parameter, and the text of a UUID is an
-- argument. What is asked of them stands in the conditions of a theorem: for Jansson, that a member
-- that is set in an object is the one that is found; for the registry behind the etcd engine, that
-- reading a directory gives a status or a directory over which a pass ends; for the database behind
-- the SQL engine, that no query fails and that the sums over its rows stay within int. Without that
-- condition, a query that fails gives NULL, which the engine hands to sql_stmt_eof: taken to be a
-- NULL dereference. A thread that pthread_create refuses leaves its field as it was. WITH_PTHREAD,
-- ENABLE_LOGGING, WITH_LIBUUID, ENABLE_ETCD and ENABLE_SQL are taken to be set. Characters are
-- classified as in the C locale.
--
-- Bounds and fuel. The loop of etcd_payload_ has one round more than the bytes that are needed:
-- each round adds 1024 to a size that is compared with them. Printing an int has ten digits of
-- fuel, which is what 2^31 needs. The walk of the fork hooks has fuel for the length of the list
-- of clusters. The threads' loops are relations, without fuel. All other loops are structural
-- recursion on a list.
--
-- Threads. The operations of a connection are seen from one thread. In cluster_etcd_leave_,
-- cluster_sql_leave_ and the fork handlers, the two threads that they wait for appear by what they
-- do once they are told to leave: the ping thread removes the entry, the balancing thread may run
-- one last pass, before or after that. Threads has their whole loops: the step relation cuts a
-- thread where it holds no lock and lets the steps of both, and changes of the registry by other
-- instances, follow each other in any order. Calls of the application are not among these steps.
--
-- libetcd. Etcd/Client is what the engine relies on; Libetcd/Requests and Libetcd/Calls are the
-- functions behind it, over a network (liburi, libcurl and the allocator) that is a parameter.
-- There a handle is its fields; Libetcd/Handles gives handles addresses, records the use of an
-- address that is not allocated, and so fills Etcd/Client. An address is given out once: the
-- allocator's reuse of freed memory is not modelled. An ETCD counts from where the function that
-- allocates it (etcd_connect_uri, etcd_clone, etcd_dir_create_) returns it, so that etcd_dir_create
-- and etcd_dir_open close theirs where the request fails; what those functions free themselves
-- where they fail, and the other memory that a call uses, is not counted, nor is the handle that
-- the balancing thread clones and closes for itself (Etcd/Threads).
--
-- Not modelled: the log lines of the operations of cluster.c, engines/ and libetcd/ (where a line
-- goes is in Logging, and Job/Log has lines); freeing a job (cluster_job_destroy); the
-- initialisation of locks; the callback's own effects on the connection; what cluster-test.c
-- prints, and its signal handler, which only ends the wait.
pub mod Prelude
pub mod Process
pub mod Cluster
pub mod Static
pub mod Tally
pub mod Jansson
pub mod Etcd
pub mod Libetcd
pub mod Job
pub mod Sql
pub mod Membership
pub mod Threads
pub mod Clusters
pub mod Logging
pub mod ClusterTest
pub mod Tests
