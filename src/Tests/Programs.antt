-- ===== src/Tests/Programs.antt =====
-- The program of the client.
use stakan.Base.{true, false}
use stakan.ClientProgram.{Network}

-- The server is there, and nothing is lost until the program leaves.
abbrev calm : Network
calm = record {
  reachable = true;
  subscribe_writes = true;
  thread_ends = false;
  unsubscribe_writes = true;
  close_throws = true;
}
