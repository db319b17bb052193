-- ===== src/Lib.antt =====
-- A verification of maubot's core: the Matrix clients, the plugin archives, the plugin instances that
-- join the two, the handlers of the management API that drive them, and what a plugin stands on:
-- commands, messages, the scheduler, its database and its handlers.
--
-- The program is one asyncio process. A client (maubot/client.py) is a Matrix account, an instance
-- (maubot/instance.py) runs one plugin on one client, and a loader (maubot/loader/zip.py) reads the
-- archive of one plugin. Each client and each loader has the set of instances that use it; an
-- instance names its client and its loader. Objects are found through class-level caches and are
-- stored in two tables (maubot/db/client.py, maubot/db/instance.py). The handlers of
-- maubot/management/api look the objects up and call their methods.
--
-- The state of the whole program is the record World of World.antt. Objects live in heaps, functions
-- from addresses, so that two references to one object see each other's writes; caches and tables
-- are association lists. A method is a function of type Exec World A (Base/Exec.antt): it returns a
-- result or an exception, and in both cases the state it leaves. A `try` is `attempt`, which makes
-- the outcome a value. What is outside the repository - the Matrix library and the homeservers, the
-- encryption library, zip and YAML readers, the plugins' own code - is the record Env of
-- World/Env.antt. Each of its answers may depend on everything that was asked before, which World
-- records in `trace`. A set of instances (World/Refs.antt) keeps for each entry the hash that it was
-- added under, since PluginInstance.__hash__ reads an id that can change, and takes an object that is
-- equal for the same one, since the dataclass of maubot/db/instance.py compares the columns.
--
-- Which file models what:
--   Client.antt             maubot/client.py: Client.postinit, get, delete, clear_cache and the setup
--                           of encryption; Client/Update.antt has the update_* methods and
--                           Client/Lifecycle.antt start, stop, start_plugins and stop_plugins, and
--                           Client/Events.antt the handlers of invites, tombstones and syncs
--   Loader.antt             maubot/loader/zip.py and the id cache of maubot/loader/abc.py;
--                           Loader/Files.antt has trash, Loader/Preload.antt load_all
--   Instance.antt           maubot/instance.py: postinit, get, load and web apps; Instance/Stores.antt
--                           has the databases and delete, Instance/Lifecycle.antt start and stop,
--                           Instance/Update.antt the update_* methods, Instance/Introspection.antt
--                           the tables of a plugin's database
--   Server.antt             the plugin routes of maubot/server.py
--   Api/Clients.antt        maubot/management/api/client.py
--   Api/Instances.antt      maubot/management/api/instance.py
--   Api/Plugins.antt        maubot/management/api/plugin.py, upload_new_plugin and
--                           upload_replacement_plugin of plugin_upload.py, and stop_instances and
--                           start_instances of maubot/loader/abc.py
--   Api/Uploads.antt        the two handlers of maubot/management/api/plugin_upload.py
--   Api/Databases.antt      maubot/management/api/instance_database.py
--   Api/Proxy.antt          maubot/management/api/client_proxy.py
--   Api/Responses.antt      maubot/management/api/responses.py
--   Auth.antt               who may use the API: Auth/Admins.antt has the accounts of
--                           maubot/config.py, Auth/Tokens.antt maubot/management/api/auth.py and
--                           login.py, Auth/Middleware.antt middleware.py, Auth/Servers.antt and
--                           Auth/Sso.antt client_auth.py
--   Logs.antt               maubot/management/api/log.py
--   Commands.antt           maubot/handlers/command.py: Commands/Arguments.antt matches arguments,
--                           Commands/Dispatch.antt has __call__ and __get__, Commands/Usage.antt the
--                           usage texts, Commands/Decorators.antt and Commands/Passive.antt the
--                           decorators
--   Plugin.antt             maubot/plugin_base.py, maubot/handlers/event.py and web.py;
--                           Plugin/Scheduler.antt has maubot/scheduler.py, Plugin/WebApp.antt
--                           maubot/plugin_server.py and handle_plugin_path of maubot/server.py
--   Messages.antt           maubot/matrix.py; Messages/Events.antt has dispatch_event and get_event
--   Databases.antt          maubot/lib/plugin_db.py
--   Program.antt            maubot/__main__.py; the objects of all rows, which it loads and starts, are
--                           in Client/Every.antt and Instance/Every.antt
--   Standalone.antt         maubot/standalone: Standalone/Setup.antt, Start.antt and Run.antt have
--                           __main__.py, Standalone/Batches.antt database.py and config.py
--   Cli.antt                maubot/cli: config.py and the login; Cli/Prompts.antt has cliq,
--                           Cli/Build.antt commands/build.py
-- The other files below these modules hold their theorems, and Examples applies the theorems to a
-- small state.
--
-- The modules from Auth on do not use World, but for Auth/Servers.antt, which ends in the handlers of
-- Api/Clients.antt. Where handlers wait for each other - single sign-on, the log socket, the
-- connections of a database, the tasks of a scheduler - the state is a record and what runs between
-- two waits is a step of a relation, whose closure has every interleaving. A tree of command handlers
-- is a data type, and a call of it a function to an outcome: nothing, one reply, a call of a plugin's
-- function, or an exception.
--
-- The standalone program and the command-line tools are programs of their own: they share the
-- records of World.antt for metadata and answers, and nothing of its state.
--
-- Bounds and fuel: only the loop in which the standalone program waits for its homeserver runs on
-- fuel, one for each try, since it has no bound of its own; used-up fuel is an outcome of its own,
-- and Standalone/Retrying.antt says how much is enough. The other loops over modules and references are structural
-- recursion on lists. The retries of Client.start are tasks in World, which Client/Retries.antt runs
-- one at a time; the try number 8 of the source bounds them.
--
-- Not modelled: logging, and the sleep before a retry, which only takes time. The tasks of
-- asyncio.gather run one after another and not interleaved. The lock around `get` is not
-- modelled, since one lookup runs at a time. A database write does not fail, except where a
-- primary key is taken, and a file that is opened to be written or archived can be. An interrupt
-- of the event loop that leaves main of the standalone program pending, so that it goes on while
-- stop runs, is not modelled either. The path of a replacement archive is an argument, since a
-- regular expression makes it from the old name. lib/zipimport.py is a copy of CPython's
-- zipimport, so that its answers are those of Env. In Auth, Messages and Commands the libraries
-- are records of functions too: signed tokens, bcrypt, homeservers, Markdown, HTML, regular
-- expressions and str.lower. The web front end, the prompts and printed texts of the command-line
-- tools, and the copying of configuration keys are not part of this development.
pub mod Base
pub mod World
pub mod Client
pub mod Loader
pub mod Server
pub mod Instance
pub mod Api
pub mod Examples
pub mod Auth
pub mod Cli
pub mod Commands
pub mod Databases
pub mod Logs
pub mod Messages
pub mod Plugin
pub mod Program
pub mod Standalone
